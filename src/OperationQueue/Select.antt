-- ===== src/OperationQueue/Select.antt =====
-- What `select_open` takes from the dict of the operations.
use Prim.Native.String.{String}
use text.Mathlib.Text.{◌==◌ as str_eq}
use text.Mathlib.TextEquality.{eq_iff}
use mathlib.Core.List.{Memᴰ}
use mathlib.Core.List.Memᴰ
use mathlib.Core.Path.{subst}
use franklink.Prelude.{
  ◌≡◌, ◌↔◌, inl, inr, refl, sym, ap, ◌∙◌, true, false, Option, none, some, List, [], ◌∷◌, arith,
  Bool-cases,
}
use franklink.OperationQueue.{
  QueuedOperation, has_key, matches, list_open, find_operation, select_open,
}
use franklink.OperationQueue.History.{ids}

-- No two identifiers are the same.
abbrev pub Distinct : List String → Type 0
Distinct [] = Unit
Distinct (key ∷ keys) = (has_key key keys ≡ false) × Distinct keys

has_key-Memᴰ : (key : String) (keys : List String) → (has_key key keys ≡ true) ↔ Memᴰ key keys
unfolding has_key
has_key-Memᴰ key [] = (λ h. cc, λ m. absurd (Memᴰ.not-nil m))
has_key-Memᴰ key (k ∷ keys) = (
  λ h. elim (Bool-cases (str_eq k key)) [
    | inl e ↦ Memᴰ.head (sym ((eq_iff k key).0 e))
    | inr e ↦ Memᴰ.tail ((has_key-Memᴰ key keys).0 (rw e at h))
  ],
  λ m. elim (Memᴰ.cases_cons m) [
    | inl e ↦ let here = (eq_iff k key).1 (sym e) in ground arith
    | inr later ↦ let there = (has_key-Memᴰ key keys).1 later in ground arith
  ],
)

module _ {P R : Type 0} where
  find_operation_sound :
      (id : String) (ops : List (QueuedOperation P R)) (op : QueuedOperation P R)
      → find_operation id ops ≡ some op
      → Memᴰ op ops × (op.operation_id ≡ id)
  unfolding find_operation
  find_operation_sound id [] op h = cc
  find_operation_sound id (x ∷ ops) op h = elim (Bool-cases (str_eq x.operation_id id)) [
    | inl e ↦
        let same : x ≡ op = (let found : some x ≡ some op = rw e at h in cc) in
        (
          Memᴰ.head (sym same),
          sym (ap (λ (o : QueuedOperation P R). o.operation_id) same)
              ∙ (eq_iff x.operation_id id).0 e,
        )
    | inr e ↦ let later = find_operation_sound id ops op (rw e at h) in (Memᴰ.tail later.0, later.1)
  ]

  find_operation_complete :
      (ops : List (QueuedOperation P R)) (op : QueuedOperation P R)
      → Distinct (ids ops)
      → Memᴰ op ops
      → find_operation op.operation_id ops ≡ some op
  unfolding find_operation
  find_operation_complete [] op d m = absurd (Memᴰ.not-nil m)
  find_operation_complete (x ∷ ops) op d m = elim (Memᴰ.cases_cons m) [
    | inl e ↦
        let here =
          (eq_iff x.operation_id op.operation_id).1
            (ap (λ (o : QueuedOperation P R). o.operation_id) (sym e)) in
        rw here (ap some (sym e))
    | inr later ↦
        let among =
          (has_key-Memᴰ op.operation_id (ids ops)).1
            (Memᴰ.map (λ (o : QueuedOperation P R). o.operation_id) later) in
        let apart : str_eq x.operation_id op.operation_id ≡ false =
          elim (Bool-cases (str_eq x.operation_id op.operation_id)) [
            | inr other ↦ other
            | inl same ↦
                let here =
                  subst (λ k. has_key k (ids ops) ≡ true)
                    (sym ((eq_iff x.operation_id op.operation_id).0 same)) among in
                let clash : true ≡ false = sym here ∙ d.0 in cc
          ] in
        rw apart (find_operation_complete ops op d.1 later)
  ]

module _ {P R : Type 0} (user : String) (type : Option String) where
  -- What `select_open` takes from the dict.
  pub record Selected (ops : List (QueuedOperation P R)) (keys : List String)
      (op : QueuedOperation P R) : Type 0 where
    pub key : Memᴰ op.operation_id keys
    pub known : Memᴰ op ops
    pub fits : matches user type op ≡ true

  later_key :
      (k : String) (ops : List (QueuedOperation P R)) (keys : List String)
      (op : QueuedOperation P R)
      → Selected ops keys op
      → Selected ops (k ∷ keys) op
  later_key k ops keys op h = record { key = Memᴰ.tail h.key; known = h.known; fits = h.fits }

  pub select_open_sound :
      (ops : List (QueuedOperation P R)) (keys : List String) (op : QueuedOperation P R)
      → Memᴰ op (select_open user type ops keys)
      → Selected ops keys op
  unfolding select_open
  select_open_sound ops [] op m = absurd (Memᴰ.not-nil m)
  select_open_sound ops (k ∷ keys) op m =
      by_find (λ m'. later_key k ops keys op (select_open_sound ops keys op m'))
        (find_operation k ops) refl m
    where
      by_find :
          (Memᴰ op (select_open user type ops keys) → Selected ops (k ∷ keys) op)
          → (found : Option (QueuedOperation P R)) → find_operation k ops ≡ found
          → Memᴰ op (list_open user type found (select_open user type ops keys))
          → Selected ops (k ∷ keys) op
      by_find rest none e m' = rest m'
      by_find rest (some x) e m' = elim (Bool-cases (matches user type x)) [
        | inr other ↦ rest (rw other at m')
        | inl good ↦ elim (Memᴰ.cases_cons (rw good at m')) [
          | inr later ↦ rest later
          | inl same ↦
              let source = find_operation_sound k ops x e in
              record {
                key = Memᴰ.head (ap (λ (o : QueuedOperation P R). o.operation_id) same ∙ source.1);
                known = subst (λ o. Memᴰ o ops) (sym same) source.0;
                fits = subst (λ o. matches user type o ≡ true) (sym same) good;
              }
        ]
      ]

  pub select_open_complete :
      (ops : List (QueuedOperation P R)) (keys : List String) (op : QueuedOperation P R)
      → Distinct (ids ops)
      → Selected ops keys op
      → Memᴰ op (select_open user type ops keys)
  unfolding select_open
  select_open_complete ops [] op d h = absurd (Memᴰ.not-nil h.key)
  select_open_complete ops (k ∷ keys) op d h = elim (Memᴰ.cases_cons h.key) [
    | inl same ↦
        let found : find_operation k ops ≡ some op =
          subst (λ id. find_operation id ops ≡ some op) same
            (find_operation_complete ops op d h.known) in
        rw (found, h.fits) (Memᴰ.head refl)
    | inr later ↦ kept (find_operation k ops) (
        select_open_complete ops keys op d (record { key = later; known = h.known; fits = h.fits }))
  ]
    where
      kept :
          (found : Option (QueuedOperation P R))
          → Memᴰ op (select_open user type ops keys)
          → Memᴰ op (list_open user type found (select_open user type ops keys))
      kept none m = m
      kept (some x) m = elim (Bool-cases (matches user type x)) [
        | inl good ↦ rw good (Memᴰ.tail m)
        | inr other ↦ rw other m
      ]
