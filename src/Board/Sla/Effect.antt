-- ===== src/Board/Sla/Effect.antt =====
-- jobs/check-approval-sla.ts: what one run does to the board.
use mathlib.Core.Path.{subst}
use mathlib.Core.Option
use mathlib.Core.Option.{some-injective}
use crm_collab.Base.{
  ℕ, ◌≡◌, sym, ◌∙◌, inl, inr, Bool, false, some, List, [], ◌∷◌, map, arith, if◌then◌else◌,
  Bool-cases, Option-cases, select, take, has,
}
use crm_collab.Base.Table.{IsKeyed, find_by-update_where, update_where}
use crm_collab.Board.Model.{
  Task, Column, Db, blocked, same_key, find_task_by_id, find_task_column_by_id,
  find_task_column_by_key, task_id, column_id, emit,
}
use crm_collab.Board.Frame.{
  SameBoard-find_task, SameBoard, SameBoard_refl, SameBoard_trans, emit-SameBoard,
}
use crm_collab.Board.BlockData.{NoBlock, IsConsistent, SameBoard-IsConsistent}
use crm_collab.Board.BlockCycle.{column_by_key}
use crm_collab.Board.Sla.{is_timed_out, time_out, emit_timeouts, check_client_approval_sla}

emit_timeouts-SameBoard :
    (emits : ℕ → Bool) (ts : List Task) (db : Db) → SameBoard db (emit_timeouts emits ts db)
unfolding emit_timeouts emit
emit_timeouts-SameBoard emits [] db = SameBoard_refl db
emit_timeouts-SameBoard emits (t ∷ ts) db = elim (Bool-cases (emits t.id)) [
  | inl e ↦
      rw e
        (SameBoard_trans (emit-SameBoard t.project_id 0 _ db) (emit_timeouts-SameBoard emits ts _))
  | inr e ↦ rw e (emit_timeouts-SameBoard emits ts db)
]

-- The rows that one run takes, and the ids of those rows.
abbrev pub taken : ℕ → ℕ → Db → List Task
taken hours now db = take 100 (select (is_timed_out hours now db) db.tasks)

abbrev pub ids_of : List Task → List ℕ
ids_of ts = map (λ t. t.id) ts

abbrev pub after_timeouts : ℕ → ℕ → Db → Db
after_timeouts hours now db = record db {
  tasks = update_where (λ t. has (ids_of (taken hours now db)) t.id) (time_out now db) db.tasks;
}

pub check-SameBoard :
    (emits : ℕ → Bool) (hours now : ℕ) (db : Db)
    → SameBoard (after_timeouts hours now db) (check_client_approval_sla emits hours now db).1
unfolding check_client_approval_sla
check-SameBoard emits hours now db = emit_timeouts-SameBoard emits (taken hours now db) _

time_out-id : (now : ℕ) (db : Db) (t : Task) → (time_out now db t).id ≡ t.id
unfolding time_out
time_out-id now db t = ground arith

-- A task is found after the run as it was, or timed out if the run reports it.
pub find_task-check :
    (emits : ℕ → Bool) (hours now : ℕ) (db : Db) (id : ℕ)
    → find_task_by_id (check_client_approval_sla emits hours now db).1 id
      ≡ Option.map
          (λ t.
            if has (check_client_approval_sla emits hours now db).0.task_ids t.id
            then time_out now db t
            else t)
          (find_task_by_id db id)
unfolding check_client_approval_sla find_task_by_id
find_task-check emits hours now db id =
    SameBoard-find_task id (check-SameBoard emits hours now db)
    ∙ find_by-update_where task_id id (λ t. has (ids_of (taken hours now db)) t.id)
        (time_out now db) db.tasks (time_out-id now db)

-- A timed out task stands in the column of blocked tasks, or is as it was.
time_out-NoBlock :
    (now : ℕ) (db : Db) (id : ℕ) (t : Task) (c : Column)
    → IsKeyed column_id db.columns
    → IsConsistent db
    → find_task_by_id db id ≡ some t
    → find_task_column_by_id db (time_out now db t).column_id ≡ some c
    → same_key c.key blocked ≡ false
    → NoBlock (time_out now db t)
unfolding time_out
time_out-NoBlock now db id t c keyed h ft fc free =
    elim (Option-cases (find_task_column_by_key db t.project_id blocked)) [
      | inl absent ↦ rw (absent, time_out) (h.at id t c ft (rw (absent, time_out) at fc) free)
      | inr (b, at) ↦
          let (by_id, is_blocked) = column_by_key db t.project_id blocked keyed at in
          absurd (ground (arith, by_id, is_blocked, rw (at, time_out) at fc, free))
    ]

after_timeouts-IsConsistent :
    (hours now : ℕ) (db : Db)
    → IsKeyed column_id db.columns
    → IsConsistent db
    → IsConsistent (after_timeouts hours now db)
unfolding find_task_by_id find_task_column_by_id
after_timeouts-IsConsistent hours now db keyed h =
    let hit = λ (t : Task). has (ids_of (taken hours now db)) t.id in
    record {
      at = λ id t c ft fc free.
          let mapped =
            sym
              (find_by-update_where task_id id hit (time_out now db) db.tasks (time_out-id now db))
            ∙ ft in
          let (t₀, before, image) = (Option.map-eq-some_iff _ _).0 mapped in
          elim (Bool-cases (hit t₀)) [
            | inl timed ↦
                let same = rw timed at image in
                subst NoBlock same
                  (time_out-NoBlock now db id t₀ c keyed h before (rw same fc) free)
            | inr kept ↦
                let same = rw kept at image in
                subst NoBlock same (h.at id t₀ c before (rw same fc) free)
          ];
    }

-- A run keeps the invariant of the block data.
pub check-IsConsistent :
    (emits : ℕ → Bool) (hours now : ℕ) (db : Db)
    → IsKeyed column_id db.columns
    → IsConsistent db
    → IsConsistent (check_client_approval_sla emits hours now db).1
check-IsConsistent emits hours now db keyed h =
    SameBoard-IsConsistent (check-SameBoard emits hours now db)
      (after_timeouts-IsConsistent hours now db keyed h)
