-- ===== src/Coalescer/Combine.antt =====
-- The contents that `_combine_messages` joins.
use mathlib.Core.Path.{subst}
use franklink.Prelude.{
  ◌≡◌, ◌≢◌, ◌↔◌, ◌⊎◌, inl, inr, refl, sym, ap, ◌∙◌, Bool, true, false, not, ◌&&◌, List, [], ◌∷◌,
  arith, leb, All, if◌then◌else◌, Bool-cases, if_both,
}
use franklink.Text.{Text, codes}
use franklink.Text.Strip.{strip}
use franklink.Text.Equal.{text_eq, text_eq_refl, text_eq→≡, join}
use franklink.Coalescer.{
  PendingMessage, is_filled, sort_insert, sort_messages, seen_before, combined_parts,
  combine_messages,
}

abbrev pub In : {A : Type 0} → A → List A → Type 0
In x [] = ⊥
In x (y ∷ ys) = (y ≡ x) ⊎ In x ys

abbrev pub Distinct : List Text → Type 0
Distinct [] = Unit
Distinct (t ∷ ts) = All (λ s. s ≢ t) ts × Distinct ts

seen_before-In : (t : Text) (seen : List Text) → seen_before t seen ≡ true → In t seen
unfolding seen_before
seen_before-In t [] h = cc
seen_before-In t (s ∷ seen) h = elim (Bool-cases (text_eq t s)) [
  | inl e ↦ inl (sym (text_eq→≡ t s e))
  | inr e ↦
      inr (seen_before-In t seen (ap (λ b. if b then true else seen_before t seen) (sym e) ∙ h))
]

-- A text that is kept after `seen`.
record New (seen : List Text) (t : Text) : Type 0 where
  pub full : t ≢ []
  pub unseen : seen_before t seen ≡ false

New-cons : (c : Text) (seen : List Text) (t : Text) → New (c ∷ seen) t → New seen t × (t ≢ c)
unfolding seen_before
New-cons c seen t n = elim (Bool-cases (text_eq t c)) [
  | inl e ↦
      let h : true ≡ false = ap (λ b. if b then true else seen_before t seen) (sym e) ∙ n.unseen in
      cc
  | inr e ↦ (
    record {
      full = n.full;
      unseen = ap (λ b. if b then true else seen_before t seen) (sym e) ∙ n.unseen;
    },
    λ same. let h : true ≡ false = sym (text_eq_refl t) ∙ ap (text_eq t) same ∙ e in cc,
  )
]

All-New :
    (c : Text) (seen ts : List Text)
    → All (New (c ∷ seen)) ts
    → All (New seen) ts × All (λ t. t ≢ c) ts
All-New c seen [] h = (tt, tt)
All-New c seen (t ∷ ts) h =
    let first = New-cons c seen t h.0 in
    let rest = All-New c seen ts h.1 in ((first.0, rest.0), (first.1, rest.1))

is_filled→≢ : (t : Text) → is_filled t ≡ true → t ≢ []
is_filled→≢ [] h = cc
is_filled→≢ (c ∷ t) h = λ e. cc

kept_test : (a b : Bool) → (a && not b) ≡ true → (a ≡ true) × (b ≡ false)
kept_test a b h = ground arith

parts-New :
    (seen : List Text) (ms : List PendingMessage)
    → All (New seen) (combined_parts seen ms) × Distinct (combined_parts seen ms)
unfolding combined_parts
parts-New seen [] = (tt, tt)
parts-New seen (m ∷ ms) =
    let content = strip m.content in
    elim (Bool-cases (is_filled content && not (seen_before content seen))) [
      | inr e ↦ rw e (parts-New seen ms)
      | inl e ↦
          let test = kept_test (is_filled content) (seen_before content seen) e in
          let rest = parts-New (content ∷ seen) ms in
          let apart = All-New content seen (combined_parts (content ∷ seen) ms) rest.0 in
          rw e (
            (record { full = is_filled→≢ content test.0; unseen = test.1 }, apart.0),
            (apart.1, rest.1),
          )
    ]

-- A visible content is one of the parts, unless it was seen.
head_complete :
    (m : PendingMessage) (seen : List Text) (ms : List PendingMessage)
    → is_filled (strip m.content) ≡ true
    → In (strip m.content) seen ⊎ In (strip m.content) (combined_parts seen (m ∷ ms))
unfolding combined_parts
head_complete m seen ms h = elim (Bool-cases (seen_before (strip m.content) seen)) [
  | inl e ↦ inl (seen_before-In (strip m.content) seen e)
  | inr e ↦ rw (h, e) (inr (inl refl))
]

parts_complete :
    (m : PendingMessage) (seen : List Text) (ms : List PendingMessage)
    → is_filled (strip m.content) ≡ true
    → In m ms
    → In (strip m.content) seen ⊎ In (strip m.content) (combined_parts seen ms)
unfolding combined_parts
parts_complete m seen [] h i = elim i [ ]
parts_complete m seen (x ∷ ms) h (inl same) =
    subst (λ y. In (strip y.content) seen ⊎ In (strip y.content) (combined_parts seen (x ∷ ms)))
      same (head_complete x seen ms (ap (λ y. is_filled (strip y.content)) same ∙ h))
parts_complete m seen (x ∷ ms) h (inr i) =
    let content = strip x.content in
    elim (Bool-cases (is_filled content && not (seen_before content seen))) [
      | inr e ↦ rw e (parts_complete m seen ms h i)
      | inl e ↦ rw e (elim (parts_complete m (content ∷ seen) ms h i) [
        | inl (inl same) ↦ inr (inl same)
        | inl (inr before) ↦ inl before
        | inr later ↦ inr (inr later)
      ])
    ]

-- Every part is the content of a message.
abbrev pub FromMessage : Text → List PendingMessage → Type 0
FromMessage t ms = (m : PendingMessage) × In m ms × (strip m.content ≡ t)

FromMessage-cons :
    (t : Text) (x : PendingMessage) (ms : List PendingMessage)
    → FromMessage t ms
    → FromMessage t (x ∷ ms)
FromMessage-cons t x ms (m, i, e) = (m, inr i, e)

In-if : (t : Text) (b : Bool) (xs ys : List Text) → In t (if b then xs else ys) → In t xs ⊎ In t ys
In-if t true xs ys i = inl i
In-if t false xs ys i = inr i

parts_sound :
    (t : Text) (seen : List Text) (ms : List PendingMessage)
    → In t (combined_parts seen ms)
    → FromMessage t ms
unfolding combined_parts
parts_sound t seen [] i = elim i [ ]
parts_sound t seen (x ∷ ms) i =
    let content = strip x.content in
    elim (In-if t (is_filled content && not (seen_before content seen))
      (content ∷ combined_parts (content ∷ seen) ms) (combined_parts seen ms) i) [
        | inl (inl same) ↦ (x, inl refl, same)
        | inl (inr later) ↦ FromMessage-cons t x ms (parts_sound t (content ∷ seen) ms later)
        | inr later ↦ FromMessage-cons t x ms (parts_sound t seen ms later)
      ]

-- The sort keeps the messages.
In-sort_insert :
    (m x : PendingMessage) (ms : List PendingMessage) → In m (x ∷ ms) ↔ In m (sort_insert x ms)
unfolding sort_insert
In-sort_insert m x [] = ((λ i. i), (λ i. i))
In-sort_insert m x (y ∷ ms) =
    let rest = In-sort_insert m x ms in
    if_both (λ (l : List PendingMessage). In m (x ∷ y ∷ ms) ↔ In m l) (leb x.timestamp y.timestamp)
      _ _ ((λ i. i), (λ i. i))
      (
        (λ i. elim i [
          | inl e ↦ inr (rest.0 (inl e))
          | inr (inl e) ↦ inl e
          | inr (inr j) ↦ inr (rest.0 (inr j))
        ]),
        (λ i. elim i [
          | inl e ↦ inr (inl e)
          | inr j ↦ elim (rest.1 j) [ inl e ↦ inl e | inr k ↦ inr (inr k) ]
        ]),
      )

In-sort_messages :
    (m : PendingMessage) (ms : List PendingMessage) → In m ms ↔ In m (sort_messages ms)
unfolding sort_messages
In-sort_messages m [] = ((λ i. i), (λ i. i))
In-sort_messages m (x ∷ ms) =
    let rest = In-sort_messages m ms in
    let here = In-sort_insert m x (sort_messages ms) in
    (
      (λ i. here.0 (elim i [ inl e ↦ inl e | inr j ↦ inr (rest.0 j) ])),
      (λ i. elim (here.1 i) [ inl e ↦ inl e | inr j ↦ inr (rest.1 j) ]),
    )

-- What the parts of a combined message are, for the messages it combines.
pub record PartsOf (messages : List PendingMessage) (parts : List Text) : Type 0 where
  pub distinct : Distinct parts
  pub full : All (λ t. t ≢ []) parts
  pub sound : (t : Text) → In t parts → FromMessage t messages
  pub complete :
      (m : PendingMessage) → In m messages → strip m.content ≢ [] → In (strip m.content) parts

All-full : (ts : List Text) → All (New []) ts → All (λ t. t ≢ []) ts
All-full [] h = tt
All-full (t ∷ ts) h = (h.0.full, All-full ts h.1)

≢→is_filled : (t : Text) → t ≢ [] → is_filled t ≡ true
≢→is_filled [] h = elim (h refl) [ ]
≢→is_filled (c ∷ t) h = refl

-- The combined message joins by newlines texts that are not empty and all different; each of them
-- is the stripped content of a message, and the stripped content of every message that is not
-- empty is one of them.
pub combine_messages-PartsOf :
    (messages : List PendingMessage)
    → (parts : List Text) × (combine_messages messages ≡ join (codes "\n") parts)
      × PartsOf messages parts
unfolding combine_messages
combine_messages-PartsOf messages =
    let sorted : List PendingMessage = sort_messages messages in
    let parts : List Text = combined_parts [] sorted in
    (
      parts,
      refl,
      record {
        distinct = (parts-New [] sorted).1;
        full = All-full parts (parts-New [] sorted).0;
        sound = λ t i.
            let from = parts_sound t [] sorted i in
            (from.0, (In-sort_messages from.0 messages).1 from.1, from.2);
        complete = λ m i visible.
            elim (parts_complete m [] sorted (≢→is_filled (strip m.content) visible)
              ((In-sort_messages m messages).0 i)) [
                | inl none_seen ↦ elim none_seen [ ]
                | inr part ↦ part
              ];
      },
    )
