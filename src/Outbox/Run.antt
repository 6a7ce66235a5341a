-- ===== src/Outbox/Run.antt =====
-- jobs/run-collab-outbox.ts: one run claims events, publishes them and marks the outcome of each.
-- The counting of metrics and the log lines change nothing here. The failed events are marked one
-- after the other, then the published ones; the source starts all of them at once, on rows apart.
use crm_collab.Base.{ℕ, suc, Bool, true, false, Option, none, some, List, [], ◌∷◌, map, length}
use crm_collab.Base.Text.{Text, codes}
use crm_collab.Outbox.{
  Payload, OutboxRow, claim_pending_collab_outbox_events, count_pending_collab_outbox_events,
  mark_collab_outbox_published, mark_collab_outbox_failed,
}

pub record RunResult : Type 0 where
  pub processed : ℕ
  pub failed : ℕ
  pub pending : ℕ

abbrev pub claim_timeout_ms : ℕ
claim_timeout_ms = 60_000

-- What the pipeline of `XADD` answers: it throws, or has an error or none for each command.
pub data Published : Type 0 where
  thrown : Text → Published
  answered : List (Option Text) → Published

-- `publishResults[index] ?? [new Error(…)]`, and `null` is success.
abbrev pub unanswered : Text
unanswered = codes "Redis no devolvió resultado de publicación"

unfoldable pub outcomes : List OutboxRow → List (Option Text) → List (ℕ × Option Text)
outcomes [] answers = []
outcomes (r ∷ rs) [] = (r.id, some unanswered) ∷ outcomes rs []
outcomes (r ∷ rs) (a ∷ rest) = (r.id, a) ∷ outcomes rs rest

unfoldable pub publish_outcomes : List OutboxRow → Published → List (ℕ × Option Text)
unfolding outcomes
publish_outcomes rows (thrown e) = map (λ r. (r.id, some e)) rows
publish_outcomes rows (answered answers) = outcomes rows answers

unfoldable pub published_ids : List (ℕ × Option Text) → List ℕ
published_ids [] = []
published_ids ((id, none) ∷ rest) = id ∷ published_ids rest
published_ids ((id, some e) ∷ rest) = published_ids rest

-- The sum of what the statements say, unless one of them failed.
abbrev counted : Option Bool → Option ℕ → Option ℕ
counted none n = none
counted (some b) none = none
counted (some true) (some n) = some (suc n)
counted (some false) (some n) = some n

unfoldable pub mark_failures :
    List (ℕ × Option Text) → ℕ → ℕ → List OutboxRow → Option ℕ × List OutboxRow
unfolding mark_collab_outbox_failed
mark_failures [] token now rows = (some 0, rows)
mark_failures ((id, none) ∷ rest) token now rows = mark_failures rest token now rows
mark_failures ((id, some e) ∷ rest) token now rows =
    let marked = mark_collab_outbox_failed id token e now rows in
    let others = mark_failures rest token now marked.1 in (counted marked.0 others.0, others.1)

-- What a run does with the events that it has claimed; `none` is a run that throws because a
-- statement failed.
unfoldable pub publish_claimed :
    (List Payload → Published)
    → ℕ
    → ℕ
    → List OutboxRow
    → List OutboxRow
    → Option RunResult × List OutboxRow
unfolding count_pending_collab_outbox_events mark_failures mark_collab_outbox_published
    publish_outcomes published_ids
publish_claimed publish token later [] rows = (
  some (record {
    processed = 0;
    failed = 0;
    pending = count_pending_collab_outbox_events later rows;
  }),
  rows,
)
publish_claimed publish token later (r ∷ rs) rows =
    let results = publish_outcomes (r ∷ rs) (publish (map (λ x. x.payload) (r ∷ rs))) in
    let failures = mark_failures results token later rows in
    let done = mark_collab_outbox_published (published_ids results) token later failures.1 in
    (
      elim failures.0 [
        | none ↦ none
        | some n ↦ some (record {
          processed = length done.0;
          failed = n;
          pending = count_pending_collab_outbox_events later done.1;
        })
      ],
      done.1,
    )

-- With no connection to Redis nothing happens. `publish` is the pipeline.
unfoldable pub run_collab_outbox :
    Option (List Payload → Published)
    → (ℕ → Bool)
    → ℕ
    → ℕ
    → ℕ
    → ℕ
    → List OutboxRow
    → Option RunResult × List OutboxRow
unfolding claim_pending_collab_outbox_events publish_claimed
run_collab_outbox none locked batch token now later rows =
    (some (record { processed = 0; failed = 0; pending = 0 }), rows)
run_collab_outbox (some publish) locked batch token now later rows =
    let claim = claim_pending_collab_outbox_events locked batch token now claim_timeout_ms rows in
    publish_claimed publish token later claim.0 claim.1
