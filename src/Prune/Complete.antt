-- ===== src/Prune/Complete.antt =====
-- The deletion loop ends, deletes every stale row and no other, and counts what it deletes.
use crm_collab.Base.{
  ℕ, zero, suc, ◌+◌, ◌<◌, ◌≡◌, refl, ◌∙◌, ap, inl, inr, Bool, true, not, some, List, [], ◌∷◌, map,
  arith, Bool-cases, select, take, has, length, All, ltb, ltb→lt,
}
use crm_collab.Base.Table.{IsKeyed, All-select, All-map_holds}
use crm_collab.Base.Sort.{sort_by, All-sort_by, has-sort_by}
use crm_collab.Prune.{candidates, without, prune_loop}
use crm_collab.Prune.Rows.{
  select-eq, select-select, All-take, take_all, IsKeyed-select, IsKeyed-sort_by, IsKeyed-take,
  holds, holds_self, holds-select, length-without,
}

module _ {ℓ} {A : Type ℓ} (key at : A → ℕ) (stale : A → Bool) where
  candidates-IsKeyed :
      (n : ℕ) (rows : List A) → IsKeyed key rows → IsKeyed key (candidates key at stale n rows)
  unfolding candidates
  candidates-IsKeyed n rows h =
      IsKeyed-take key n (sort_by at (select stale rows))
        (IsKeyed-sort_by key at (select stale rows) (IsKeyed-select key stale rows h))

  candidates-held :
      (n : ℕ) (rows : List A)
      → All (λ x. holds key rows (key x) ≡ true) (candidates key at stale n rows)
  unfolding candidates
  candidates-held n rows =
      All-take (λ x. holds key rows (key x) ≡ true) n (sort_by at (select stale rows))
        (All-sort_by at (λ x. holds key rows (key x) ≡ true) (select stale rows)
          (All-select (λ x. holds key rows (key x) ≡ true) stale rows (holds_self key rows)))

  length-step :
      (n : ℕ) (rows : List A)
      → IsKeyed key rows
      → length (without key at stale (candidates key at stale n rows) rows)
          + length (candidates key at stale n rows)
        ≡ length rows
  unfolding without
  length-step n rows h =
      length-without key (candidates key at stale n rows) rows (candidates-IsKeyed n rows h) h
        (candidates-held n rows)

  has-take :
      (n k : ℕ) (xs : List A) → has (map key (take n xs)) k ≡ true → has (map key xs) k ≡ true
  has-take zero k xs e = cc
  has-take (suc n) k [] e = cc
  has-take (suc n) k (x ∷ xs) e = ground (arith, has-take n k xs, e)

  -- A row that is not stale is never a candidate.
  fresh_kept :
      (n : ℕ) (rows : List A)
      → IsKeyed key rows
      → All
          (λ r.
            not (stale r) ≡ true → not (holds key (candidates key at stale n rows) (key r)) ≡ true)
          rows
  unfolding candidates
  fresh_kept n rows h =
      All-map_holds (λ r. holds key (select stale rows) (key r) ≡ stale r)
        (λ r.
          not (stale r) ≡ true → not (holds key (candidates key at stale n rows) (key r)) ≡ true)
        rows
        (λ r e fresh. ground (
          arith,
          e,
          fresh,
          has-take n (key r) (sort_by at (select stale rows)),
          has-sort_by at key (key r) (select stale rows),
        ))
        (holds-select key stale rows h)

  step_keeps :
      (n : ℕ) (rows : List A)
      → IsKeyed key rows
      → select (λ r. not (stale r)) (without key at stale (candidates key at stale n rows) rows)
        ≡ select (λ r. not (stale r)) rows
  unfolding without
  step_keeps n rows h =
      select-select (λ r. not (holds key (candidates key at stale n rows) (key r)))
        (λ r. not (stale r)) rows (fresh_kept n rows h)

  -- A batch that is not full holds every stale row.
  last_step :
      (n : ℕ) (rows : List A)
      → IsKeyed key rows
      → length (candidates key at stale n rows) < n
      → without key at stale (candidates key at stale n rows) rows
        ≡ select (λ r. not (stale r)) rows
  unfolding without candidates
  last_step n rows h short =
      let all = take_all n (sort_by at (select stale rows)) short in
      select-eq (λ r. not (holds key (candidates key at stale n rows) (key r))) (λ r. not (stale r))
        rows
        (All-map_holds (λ r. holds key (select stale rows) (key r) ≡ stale r)
          (λ r. not (holds key (candidates key at stale n rows) (key r)) ≡ not (stale r)) rows
          (λ r e. ap not (
            ap (λ ys. holds key ys (key r)) all
            ∙ has-sort_by at key (key r) (select stale rows)
            ∙ e))
          (holds-select key stale rows h))

  -- With a batch size above 0, the loop ends within one round more than there are rows; it leaves
  -- the rows that are not stale, and returns how many it deleted.
  pub prune_loop_complete :
      (fuel n : ℕ) (rows : List A) (removed : ℕ)
      → 0 < n
      → IsKeyed key rows
      → length rows < fuel
      → (total : ℕ) × (prune_loop key at stale fuel n rows removed
          ≡ some (total, select (λ r. not (stale r)) rows))
        × (total + length (select (λ r. not (stale r)) rows) ≡ removed + length rows)
  unfolding prune_loop
  prune_loop_complete zero n rows removed pos h enough = absurd (omega (arith, enough))
  prune_loop_complete (suc fuel) n rows removed pos h enough =
      let gone = candidates key at stale n rows in
      let left = without key at stale gone rows in
      let size = length-step n rows h in
      elim (Bool-cases (ltb (length gone) n)) [
        | inl short ↦
            let done = last_step n rows h (ltb→lt (length gone) n short) in
            (removed + length gone, rw (short, done) refl, omega (arith, size, ap length done))
        | inr full ↦
            let (total, runs, count) =
              prune_loop_complete fuel n left (removed + length gone) pos
                (IsKeyed-select key (λ r. not (has (map key gone) (key r))) rows h)
                (ground (arith, full, size, enough, pos)) in
            let same = step_keeps n rows h in
            (
              total,
              rw full (runs ∙ ap (λ ys. some (total, ys)) same),
              omega (arith, count, size, ap length same),
            )
      ]
