-- ===== src/Outbox/Order.antt =====
-- collab-outbox.repository.ts, claimPendingCollabOutboxEvents: the oldest events go first.
use crm_collab.Base.{
  ℕ, zero, suc, ◌≤◌, ◌≡◌, ◌⊎◌, inl, inr, Bool, true, ◌&&◌, not, List, [], ◌∷◌, arith, ==_self, has,
  All, select, take, length,
}
use crm_collab.Base.Table.{All-map_holds, All-of-select}
use crm_collab.Base.Sort.{sort_by, All-of-sort_by, sort_by-IsSorted, IsSorted}
use crm_collab.Prune.Rows.{All-take, length-take-le}
use crm_collab.Outbox.{OutboxRow, is_claimable, claim_candidates, ids_of_rows}

abbrev age : OutboxRow → ℕ
age r = r.created_at

-- Every row of a list is among the taken ones or as new as a given instant.
abbrev Behind : List ℕ → ℕ → List OutboxRow → Type 0
Behind ids t rows = All (λ r. (has ids r.id ≡ true) ⊎ (t ≤ r.created_at)) rows

newer :
    (ids : List ℕ) (t : ℕ) (rows : List OutboxRow)
    → All (λ r. t ≤ r.created_at) rows
    → Behind ids t rows
newer ids t [] h = tt
newer ids t (r ∷ rs) (le, h) = (inr le, newer ids t rs h)

-- The first rows of a sorted list are older than the others.
taken_first :
    (n : ℕ) (rows : List OutboxRow)
    → IsSorted age rows
    → All (λ c. Behind (ids_of_rows (take n rows)) c.created_at rows) (take n rows)
taken_first zero rows h = tt
taken_first (suc n) [] h = tt
taken_first (suc n) (r ∷ rs) (least, h) =
    let ids = ids_of_rows (take n rs) in
    let self : has (r.id ∷ ids) r.id ≡ true = ground (arith, ==_self r.id) in
    (
      (inl self, newer (r.id ∷ ids) r.created_at rs least),
      All-map_holds (λ c. Behind ids c.created_at rs)
          (λ c. Behind (r.id ∷ ids) c.created_at (r ∷ rs)) (take n rs)
          (λ c b. (inl self, widen r.id ids c.created_at rs b)) (taken_first n rs h),
    )
  where
    widen :
        (k : ℕ) (ids : List ℕ) (t : ℕ) (xs : List OutboxRow)
        → Behind ids t xs
        → Behind (k ∷ ids) t xs
    widen k ids t [] b = tt
    widen k ids t (x ∷ xs) (inl e, b) = (inl (ground (arith, e)), widen k ids t xs b)
    widen k ids t (x ∷ xs) (inr le, b) = (inr le, widen k ids t xs b)

-- A claim takes at most `limit` rows, in the order of their creation, and each of them is as old as
-- any row that it could have taken and did not.
pub claim_takes_oldest :
    (locked : ℕ → Bool) (limit now timeout : ℕ) (rows : List OutboxRow)
    → let picked = claim_candidates locked limit now timeout rows in
      (length picked ≤ limit)
      × IsSorted age picked
      × All
          (λ c.
            All
              (λ r.
                (is_claimable now timeout r && not (locked r.id)) ≡ true
                → (has (ids_of_rows picked) r.id ≡ true) ⊎ (c.created_at ≤ r.created_at))
              rows)
          picked
unfolding claim_candidates
claim_takes_oldest locked limit now timeout rows =
    let open_rows = λ (r : OutboxRow). is_claimable now timeout r && not (locked r.id) in
    let sorted = sort_by age (select open_rows rows) in
    (
      length-take-le limit sorted,
      take-IsSorted limit sorted (sort_by-IsSorted age (select open_rows rows)),
      All-map_holds
          (λ (c : OutboxRow). Behind (ids_of_rows (take limit sorted)) c.created_at sorted)
          (λ (c : OutboxRow).
            All
              (λ r.
                open_rows r ≡ true
                → (has (ids_of_rows (take limit sorted)) r.id ≡ true)
                  ⊎ (c.created_at ≤ r.created_at))
              rows)
          (take limit sorted)
          (λ c b.
            All-of-select
              (λ r.
                (has (ids_of_rows (take limit sorted)) r.id ≡ true) ⊎ (c.created_at ≤ r.created_at))
              open_rows rows
              (All-of-sort_by age
                (λ r.
                  (has (ids_of_rows (take limit sorted)) r.id ≡ true)
                  ⊎ (c.created_at ≤ r.created_at))
                (select open_rows rows) b))
          (taken_first limit sorted (sort_by-IsSorted age (select open_rows rows))),
    )
  where
    take-IsSorted : (n : ℕ) (xs : List OutboxRow) → IsSorted age xs → IsSorted age (take n xs)
    take-IsSorted zero xs h = tt
    take-IsSorted (suc n) [] h = tt
    take-IsSorted (suc n) (x ∷ xs) (least, h) =
        (All-take (λ y. age x ≤ age y) n xs least, take-IsSorted n xs h)
