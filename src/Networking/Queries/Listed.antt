-- ===== src/Networking/Queries/Listed.antt =====
-- What a list of requests holds.
use Prim.Native.String.{String}
use franklink.Prelude.{ℕ, ◌≤◌, ◌≡◌, inl, inr, true, length, All, Option-cases, arith}
use franklink.Networking.Table.{Table}
use franklink.Networking.Requests.{RequestRow}
use franklink.Networking.Queries.{
  TopQuery, awaits_target, created_of, page_size, list_pending_requests_for_target,
}

page_size-le : (default limit : ℕ) → page_size default limit ≤ 25
page_size-le default limit = ground arith

-- At most 25 requests are listed for a target; each of them awaits the answer of that user and has
-- not expired.
list_pending_requests_for_target-All :
    {S : Type 0} (R : Table (RequestRow S)) (Q : TopQuery R) (now : ℕ) (user : String) (limit : ℕ)
    (st : R.Store)
    → (length (list_pending_requests_for_target R Q now user limit st) ≤ 25)
      × All
          (λ row. awaits_target now user row ≡ true)
          (list_pending_requests_for_target R Q now user limit st)
unfolding list_pending_requests_for_target
list_pending_requests_for_target-All R Q now user limit st =
    elim (Option-cases (Q.newest (awaits_target now user) created_of (page_size 5 limit) st)) [
      | inl e ↦ rw e (omega arith, tt)
      | inr (rs, e) ↦
          let (few, passes) =
            Q.newest_passes (awaits_target now user) created_of (page_size 5 limit) st rs e in
          rw e (omega (arith, few, page_size-le 5 limit), passes)
    ]
