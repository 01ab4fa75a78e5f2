-- ===== src/Text/Strip.antt =====
-- `str.strip`, `str.lstrip` and `str.rstrip` with no argument, and what they keep.
use franklink.Prelude.{
  ℕ, suc, ap, ◌∙◌, ◌≤◌, ◌≡◌, refl, Bool, false, ◌&&◌, ◌||◌, inl, inr, List, [], ◌∷◌, ◌++◌, arith,
  leb, ◌==◌, if◌then◌else◌, length, Bool-cases,
}

-- The code points of which `str.isspace` holds, and which `str.strip` removes.
unfoldable pub is_space : ℕ → Bool
is_space c =
    (leb 9 c && leb c 13)
    || (leb 28 c && leb c 32)
    || c == 133
    || c == 160
    || c == 5760
    || (leb 8192 c && leb c 8202)
    || c == 8232
    || c == 8233
    || c == 8239
    || c == 8287
    || c == 12288

unfoldable pub lstrip : List ℕ → List ℕ
lstrip [] = []
lstrip (c ∷ s) = if is_space c then lstrip s else c ∷ s

abbrev rstrip_cons : ℕ → List ℕ → List ℕ
rstrip_cons c [] = if is_space c then [] else c ∷ []
rstrip_cons c (d ∷ r) = c ∷ d ∷ r

unfoldable pub rstrip : List ℕ → List ℕ
rstrip [] = []
rstrip (c ∷ s) = rstrip_cons c (rstrip s)

unfoldable pub strip : List ℕ → List ℕ
unfolding lstrip rstrip
strip s = rstrip (lstrip s)

-- What a text shows when all white space is left out of it.
unfoldable pub visible : List ℕ → List ℕ
visible [] = []
visible (c ∷ s) = if is_space c then visible s else c ∷ visible s

pub lstrip-length-le : (s : List ℕ) → length (lstrip s) ≤ length s
unfolding lstrip
lstrip-length-le [] = omega arith
lstrip-length-le (c ∷ s) = ground (arith, lstrip-length-le s)

length-rstrip_cons-le : (c : ℕ) (r : List ℕ) → length (rstrip_cons c r) ≤ suc (length r)
length-rstrip_cons-le c [] = ground arith
length-rstrip_cons-le c (d ∷ r) = omega arith

pub rstrip-length-le : (s : List ℕ) → length (rstrip s) ≤ length s
unfolding rstrip
rstrip-length-le [] = omega arith
rstrip-length-le (c ∷ s) = omega (arith, length-rstrip_cons-le c (rstrip s), rstrip-length-le s)

pub strip-length-le : (s : List ℕ) → length (strip s) ≤ length s
unfolding strip
strip-length-le s = omega (arith, rstrip-length-le (lstrip s), lstrip-length-le s)

pub visible-append : (s t : List ℕ) → visible (s ++ t) ≡ visible s ++ visible t
unfolding visible
visible-append [] t = refl
visible-append (c ∷ s) t = elim (Bool-cases (is_space c)) [
  | inl e ↦ rw e (visible-append s t)
  | inr e ↦ rw e (ap (◌∷◌ c) (visible-append s t))
]

pub visible-lstrip : (s : List ℕ) → visible (lstrip s) ≡ visible s
unfolding visible lstrip
visible-lstrip [] = refl
visible-lstrip (c ∷ s) = elim (Bool-cases (is_space c)) [
  | inl e ↦ rw e (visible-lstrip s)
  | inr e ↦ rw e (rw e)
]

visible-rstrip_cons : (c : ℕ) (r : List ℕ) → visible (rstrip_cons c r) ≡ visible (c ∷ r)
unfolding visible
visible-rstrip_cons c [] = ground arith
visible-rstrip_cons c (d ∷ r) = refl

pub visible-rstrip : (s : List ℕ) → visible (rstrip s) ≡ visible s
unfolding rstrip visible
visible-rstrip [] = refl
visible-rstrip (c ∷ s) = visible-rstrip_cons c (rstrip s) ∙ ground (arith, visible-rstrip s)

pub visible-strip : (s : List ℕ) → visible (strip s) ≡ visible s
unfolding strip
visible-strip s = visible-rstrip (lstrip s) ∙ visible-lstrip s

-- The last character of a stripped text is no white space, nor is the first.
abbrev pub StartsVisible : List ℕ → Type 0
StartsVisible [] = Unit
StartsVisible (c ∷ s) = is_space c ≡ false

abbrev pub EndsVisible : List ℕ → Type 0
EndsVisible [] = Unit
EndsVisible (c ∷ []) = is_space c ≡ false
EndsVisible (c ∷ d ∷ s) = EndsVisible (d ∷ s)

lstrip-StartsVisible : (s : List ℕ) → StartsVisible (lstrip s)
unfolding lstrip
lstrip-StartsVisible [] = tt
lstrip-StartsVisible (c ∷ s) = elim (Bool-cases (is_space c)) [
  | inl e ↦ rw e (lstrip-StartsVisible s)
  | inr e ↦ rw e e
]

rstrip_cons-EndsVisible : (c : ℕ) (r : List ℕ) → EndsVisible r → EndsVisible (rstrip_cons c r)
rstrip_cons-EndsVisible c [] h = elim (Bool-cases (is_space c)) [ inl e ↦ rw e tt | inr e ↦ rw e e ]
rstrip_cons-EndsVisible c (d ∷ r) h = h

rstrip-EndsVisible : (s : List ℕ) → EndsVisible (rstrip s)
unfolding rstrip
rstrip-EndsVisible [] = tt
rstrip-EndsVisible (c ∷ s) = rstrip_cons-EndsVisible c (rstrip s) (rstrip-EndsVisible s)

rstrip_cons-StartsVisible :
    (c : ℕ) (r : List ℕ) → is_space c ≡ false → StartsVisible (rstrip_cons c r)
rstrip_cons-StartsVisible c [] h = rw h h
rstrip_cons-StartsVisible c (d ∷ r) h = h

rstrip-StartsVisible : (s : List ℕ) → StartsVisible s → StartsVisible (rstrip s)
unfolding rstrip
rstrip-StartsVisible [] h = tt
rstrip-StartsVisible (c ∷ s) h = rstrip_cons-StartsVisible c (rstrip s) h

pub strip-StartsVisible : (s : List ℕ) → StartsVisible (strip s)
unfolding strip
strip-StartsVisible s = rstrip-StartsVisible (lstrip s) (lstrip-StartsVisible s)

pub strip-EndsVisible : (s : List ℕ) → EndsVisible (strip s)
unfolding strip
strip-EndsVisible s = rstrip-EndsVisible (lstrip s)

lstrip_visible : (s : List ℕ) → StartsVisible s → lstrip s ≡ s
unfolding lstrip
lstrip_visible [] h = refl
lstrip_visible (c ∷ s) h = rw h refl

rstrip_visible : (s : List ℕ) → EndsVisible s → rstrip s ≡ s
unfolding rstrip
rstrip_visible [] h = refl
rstrip_visible (c ∷ []) h = rw h refl
rstrip_visible (c ∷ d ∷ s) h = ap (rstrip_cons c) (rstrip_visible (d ∷ s) h)

-- A stripped text stays as it is.
pub strip-strip : (s : List ℕ) → strip (strip s) ≡ strip s
unfolding strip rstrip
strip-strip s =
    ap rstrip (lstrip_visible (strip s) (strip-StartsVisible s))
    ∙ rstrip_visible (strip s) (strip-EndsVisible s)
