-- ===== src/Board/Progress/Exact.antt =====
-- How exactly the rounded percentage tells a completed list of subtasks from an unfinished one.
use native.Mathlib.Nat.{div-add-mod}
use crm_collab.Base.{
  ℕ, suc, ◌+◌, ◌*◌, ◌/◌, ◌%◌, ◌≤◌, ◌<◌, ◌≡◌, inl, inr, ap, Bool, true, false, ◌&&◌, not, List, [],
  ◌∷◌, arith, ◌==◌, length, Bool-cases,
}
use crm_collab.Board.Progress.{count_completed, percentage}

pub count_completed-le : (l : List Bool) → count_completed l ≤ length l
unfolding count_completed
count_completed-le [] = omega arith
count_completed-le (true ∷ l) = omega (arith, count_completed-le l)
count_completed-le (false ∷ l) = omega (arith, count_completed-le l)

-- Bounds of a quotient by a variable.
quotient-le : (a d k : ℕ) → 0 < d → a < suc k * d → a / d ≤ k
quotient-le a d k p h = grind arith

le-quotient : (a d k : ℕ) → 0 < d → k * d ≤ a → k ≤ a / d
le-quotient a d k p h = grind arith

module _ (tie_up : ℕ → ℕ → Bool) where
  percentage-le-quotient : (c n : ℕ) → percentage tie_up c n ≤ (200 * c + n) / (2 * n)
  unfolding percentage
  percentage-le-quotient c n =
      elim (Bool-cases ((200 * c + n) % (2 * n) == 0 && not (tie_up c n))) [
        | inl e ↦ rw e (omega arith)
        | inr e ↦ rw e (omega arith)
      ]

  pub percentage-le : (c n : ℕ) → c ≤ n → 0 < n → percentage tie_up c n ≤ 100
  percentage-le c n h p = omega (
    arith,
    percentage-le-quotient c n,
    quotient-le (200 * c + n) (2 * n) 100 (omega arith) (omega arith),
  )

  -- Above 99.5 per cent the result is 100, and no tie stands in the way.
  percentage_over : (c n : ℕ) → c ≤ n → 200 * n < 200 * c + n → percentage tie_up c n ≡ 100
  unfolding percentage
  percentage_over c n h p =
      let up : (200 * c + n) / (2 * n) ≡ 100 = omega (
        arith,
        quotient-le (200 * c + n) (2 * n) 100 (omega arith) (omega arith),
        le-quotient (200 * c + n) (2 * n) 100 (omega arith) (omega arith),
      ) in
      let split = div-add-mod (200 * c + n) (2 * n) in
      ground (arith, up, split, ap (λ (q : ℕ). 2 * n * q) up)

  pub percentage_full : (n : ℕ) → 0 < n → percentage tie_up n n ≡ 100
  percentage_full n p = percentage_over n n (omega arith) (omega arith)

  pub percentage_partial : (c n : ℕ) → c < n → n < 200 → percentage tie_up c n < 100
  percentage_partial c n h p = omega (
    arith,
    percentage-le-quotient c n,
    quotient-le (200 * c + n) (2 * n) 99 (omega arith) (omega arith),
  )
