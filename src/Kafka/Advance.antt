-- ===== src/Kafka/Advance.antt =====
-- The loop of `_advance_commit_locked` over the offsets that are completed.
use mathlib.Core.Path.{subst}
use franklink.Prelude.{
  ℕ, zero, suc, ◌+◌, ◌≤◌, ◌<◌, ◌≡◌, ◌⊎◌, inl, inr, sym, ap, ◌∙◌, true, false, List, [], ◌∷◌, arith,
  if◌then◌else◌, leb, length, Bool-cases, if_split, leb→le, not, ◌&&◌,
}
use franklink.Kafka.Tracker.{
  Partition, confirmed, member, add, discard, scan, contiguous_end, discard_range, commit_to,
  advance_commit,
}

here_or_later : (n m : ℕ) → m ≤ n → (n ≡ m) ⊎ (suc m ≤ n)
here_or_later n m h = ground arith

-- How many items are `c` or above.
abbrev count_from : ℕ → List ℕ → ℕ
count_from c [] = 0
count_from c (x ∷ xs) = (if leb c x then 1 else 0) + count_from c xs

count_from-length : (c : ℕ) (xs : List ℕ) → count_from c xs ≤ length xs
count_from-length c [] = omega arith
count_from-length c (x ∷ xs) = ground (arith, count_from-length c xs)

count_from-suc : (c : ℕ) (xs : List ℕ) → count_from (suc c) xs ≤ count_from c xs
count_from-suc c [] = omega arith
count_from-suc c (x ∷ xs) = ground (arith, count_from-suc c xs)

count_from-member :
    (c : ℕ) (xs : List ℕ) → member c xs ≡ true → suc (count_from (suc c) xs) ≤ count_from c xs
unfolding member
count_from-member c [] h = cc
count_from-member c (x ∷ xs) h = ground (arith, count_from-suc c xs, count_from-member c xs)

-- The end of the block of items that starts at `c`.
pub record IsEnd (completed : List ℕ) (c end : ℕ) : Type 0 where
  pub from_start : c ≤ end
  pub through : (k : ℕ) → c ≤ k → k < end → member k completed ≡ true
  pub stops : member end completed ≡ false

-- A block that is empty.
IsEnd-here : (completed : List ℕ) (c : ℕ) → member c completed ≡ false → IsEnd completed c c
IsEnd-here completed c e = record {
  from_start = omega arith;
  through = λ k low high. absurd (omega arith);
  stops = e;
}

IsEnd-next :
    (completed : List ℕ) (c end : ℕ)
    → member c completed ≡ true
    → IsEnd completed (suc c) end
    → IsEnd completed c end
IsEnd-next completed c end e block = record {
  from_start = omega (arith, block.from_start);
  through = λ k low high. elim (here_or_later k c low) [
    | inl same ↦ rw same e
    | inr later ↦ block.through k later high
  ];
  stops = block.stops;
}

scan-IsEnd :
    (fuel : ℕ) (completed : List ℕ) (c : ℕ)
    → count_from c completed ≤ fuel
    → IsEnd completed c (scan fuel completed c)
unfolding scan
scan-IsEnd zero completed c h = elim (Bool-cases (member c completed)) [
  | inr e ↦ IsEnd-here completed c e
  | inl e ↦ let some_left = count_from-member c completed e in absurd (omega arith)
]
scan-IsEnd (suc fuel) completed c h = elim (Bool-cases (member c completed)) [
  | inr e ↦ rw e (IsEnd-here completed c e)
  | inl e ↦
      let fewer : count_from (suc c) completed ≤ fuel =
        omega (arith, count_from-member c completed e) in
      rw e (IsEnd-next completed c _ e (scan-IsEnd fuel completed (suc c) fewer))
]

-- The loop ends: `contiguous_end` is the first offset from `c` on that is not completed, and all
-- before it from `c` on are.
pub contiguous_end-IsEnd :
    (completed : List ℕ) (c : ℕ) → IsEnd completed c (contiguous_end completed c)
unfolding contiguous_end
contiguous_end-IsEnd completed c =
    scan-IsEnd (length completed) completed c (count_from-length c completed)

found : (k j : ℕ) (xs : List ℕ) → member k (j ∷ xs) ≡ true → (k ≡ j) ⊎ (member k xs ≡ true)
unfolding member
found k j xs h = ground arith

pub member-add :
    (k j : ℕ) (xs : List ℕ) → member k (add j xs) ≡ true → (k ≡ j) ⊎ (member k xs ≡ true)
unfolding add member
member-add k j xs h = elim (Bool-cases (member j xs)) [
  | inl e ↦ inr (ap (λ b. member k (if b then xs else j ∷ xs)) (sym e) ∙ h)
  | inr e ↦ found k j xs (ap (λ b. member k (if b then xs else j ∷ xs)) (sym e) ∙ h)
]

pub member-discard : (k j : ℕ) (xs : List ℕ) → member k (discard j xs) ≡ true → member k xs ≡ true
unfolding discard member
member-discard k j [] h = h
member-discard k j (x ∷ xs) h = ground (arith, member-discard k j xs)

pub member-discard_range :
    (k n start : ℕ) (xs : List ℕ) → member k (discard_range n start xs) ≡ true → member k xs ≡ true
unfolding discard_range
member-discard_range k zero start xs h = h
member-discard_range k (suc n) start xs h =
    member-discard k start xs (member-discard_range k n (suc start) (discard start xs) h)

-- A commit that is confirmed takes the tracker to the first offset that is not completed, past
-- every offset of the block that starts where it was; the fuel of the loop is enough for this.
pub advance_commit-IsEnd :
    (p : Partition)
    → p.connected ≡ true
    → p.assigned ≡ true
    → IsEnd p.tracker.completed p.tracker.next_offset
        (advance_commit confirmed p).tracker.next_offset
unfolding advance_commit commit_to
advance_commit-IsEnd p connected assigned =
    let t = p.tracker in
    let end : ℕ = contiguous_end t.completed t.next_offset in
    let block : IsEnd t.completed t.next_offset end =
      contiguous_end-IsEnd t.completed t.next_offset in
    let goal : Partition → Type 0 = λ q. IsEnd t.completed t.next_offset q.tracker.next_offset in
    if_split goal (not (p.connected && p.assigned)) _ _
      (λ e.
        let off : not (true && true) ≡ true =
          ap (λ b. not (b && true)) (sym connected)
          ∙ ap (λ b. not (p.connected && b)) (sym assigned)
          ∙ e in
        cc)
      (λ on.
        if_split goal (leb end t.next_offset) _ _
          (λ e.
            let same : end ≡ t.next_offset =
              omega (arith, leb→le end t.next_offset e, block.from_start) in
            subst (IsEnd t.completed t.next_offset) same block)
          (λ e. block))
