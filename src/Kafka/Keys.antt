-- ===== src/Kafka/Keys.antt =====
-- Which messages have the same idempotency key.
use franklink.Prelude.{
  ℕ, ◌≡◌, ◌≢◌, inl, inr, refl, sym, ap, ◌∙◌, Bool, true, false, not, ◌&&◌, [], ◌∷◌, ◌++◌, arith,
  if◌then◌else◌, drop, length, Bool-cases,
}
use franklink.Text.{Text, codes}
use franklink.Text.Strip.{strip}
use franklink.Text.Find.{starts_with}
use franklink.Kafka.Event.{PhotonPayload, is_empty_text, photon_hash, build_idempotency_key}

append_cancel : (xs ys zs : Text) → xs ++ ys ≡ xs ++ zs → ys ≡ zs
append_cancel [] ys zs h = h
append_cancel (x ∷ xs) ys zs h = append_cancel xs ys zs (ap (drop 1) h)

-- A text with a prefix is the prefix and the rest.
starts_with-append : (p s : Text) → starts_with p s ≡ true → s ≡ p ++ drop (length p) s
unfolding starts_with
starts_with-append [] s h = refl
starts_with-append (c ∷ p) [] h = cc
starts_with-append (c ∷ p) (d ∷ s) h =
    let parts : (c ≡ d) × (starts_with p s ≡ true) = ground arith in
    rw (parts.0) (ap (◌∷◌ d) (starts_with-append p s parts.1))

-- The key of a stripped identifier, without the prefix of the environment.
key_body : Text → Text
key_body id =
    if starts_with photon_hash id
    then codes "photon_msg_hash:" ++ drop (length photon_hash) id
    else codes "photon_msg:" ++ id

first : Text → ℕ
first [] = 0
first (c ∷ t) = c

apart : (x y : Text) → codes "photon_msg_hash:" ++ x ≡ codes "photon_msg:" ++ y → ⊥
unfolding first
apart x y h = let tenth : 95 ≡ 58 = ap (λ t. first (drop 10 t)) h in omega (arith, tenth)

body_hash :
    (a : Text)
    → starts_with photon_hash a ≡ true
    → key_body a ≡ codes "photon_msg_hash:" ++ drop (length photon_hash) a
unfolding key_body
body_hash a e =
    ap
      (λ b.
        if b
        then codes "photon_msg_hash:" ++ drop (length photon_hash) a
        else codes "photon_msg:" ++ a)
      e

body_plain : (a : Text) → starts_with photon_hash a ≡ false → key_body a ≡ codes "photon_msg:" ++ a
unfolding key_body
body_plain a e =
    ap
      (λ b.
        if b
        then codes "photon_msg_hash:" ++ drop (length photon_hash) a
        else codes "photon_msg:" ++ a)
      e

key_body-inj : (a b : Text) → key_body a ≡ key_body b → a ≡ b
unfolding key_body
key_body-inj a b h = elim (Bool-cases (starts_with photon_hash a)) [
  | inl ea ↦ elim (Bool-cases (starts_with photon_hash b)) [
    | inl eb ↦
        let rests =
          append_cancel (codes "photon_msg_hash:") _ _
            (sym (body_hash a ea) ∙ h ∙ body_hash b eb) in
        starts_with-append photon_hash a ea
        ∙ ap (◌++◌ photon_hash) rests
        ∙ sym (starts_with-append photon_hash b eb)
    | inr eb ↦ absurd (apart _ _ (sym (body_hash a ea) ∙ h ∙ body_plain b eb))
  ]
  | inr ea ↦ elim (Bool-cases (starts_with photon_hash b)) [
    | inl eb ↦ absurd (apart _ _ (sym (body_hash b eb) ∙ sym h ∙ body_plain a ea))
    | inr eb ↦ append_cancel (codes "photon_msg:") a b (sym (body_plain a ea) ∙ h ∙ body_plain b eb)
  ]
]

full_text : (t : Text) → t ≢ [] → is_empty_text t ≡ false
full_text [] h = absurd (h refl)
full_text (c ∷ t) h = refl

chosen :
    (empty hash : Bool) (prefix plain hashed fallback : Text)
    → empty ≡ false
    → (if not empty && not hash
        then prefix ++ plain
        else if hash
        then prefix ++ hashed
        else fallback)
      ≡ prefix ++ (if hash then hashed else plain)
chosen true hash prefix plain hashed fallback e = cc
chosen false true prefix plain hashed fallback e = refl
chosen false false prefix plain hashed fallback e = refl

module _ {R : Type 0} (digest : Text → Text) where
  build-key_body :
      (development : Bool) (payload : PhotonPayload R) (a : Text)
      → strip a ≢ []
      → build_idempotency_key digest development payload a
        ≡ (if development then codes "dev_" else []) ++ key_body (strip a)
  unfolding build_idempotency_key key_body
  build-key_body development payload a full =
      chosen (is_empty_text (strip a)) (starts_with photon_hash (strip a))
        (if development then codes "dev_" else []) (codes "photon_msg:" ++ strip a)
        (codes "photon_msg_hash:" ++ drop (length photon_hash) (strip a)) _
        (full_text (strip a) full)

  -- Two messages with identifiers have the same idempotency key only if their identifiers are
  -- equal but for white space around them, whatever else their payloads hold.
  pub build_idempotency_key-inj :
      (development : Bool) (p q : PhotonPayload R) (a b : Text)
      → strip a ≢ []
      → strip b ≢ []
      → build_idempotency_key digest development p a ≡ build_idempotency_key digest development q b
      → strip a ≡ strip b
  build_idempotency_key-inj development p q a b full full' h = key_body-inj (strip a) (strip b) (
      append_cancel (if development then codes "dev_" else []) _ _
        (sym (build-key_body development p a full) ∙ h ∙ build-key_body development q b full'))
