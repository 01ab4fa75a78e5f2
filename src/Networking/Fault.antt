-- ===== src/Networking/Fault.antt =====
-- The exceptions that the networking core raises, and results that may be one.
use franklink.Prelude.{◌≡◌, ◌⊎◌, inl, inr, refl}
use franklink.Networking.Status.{Status}

pub data Fault : Type 0 where
  -- `InvalidTransitionError`
  invalid_transition : Fault
  -- `ValueError` of `NetworkingFlowState(...)` at a text that is no state
  unknown_state : Fault
  -- the database's client raised
  request_failed : Fault
  -- the `ValueError`s of `update_connection_request_status` and of `add_excluded_candidate`
  invalid_request_id : Fault
  invalid_status_transition : Status → Status → Fault
  changed_concurrently : Fault
  not_found : Fault
  -- `None[:8]`
  type_error : Fault
  -- `result.data[0]` of an empty list
  index_error : Fault
  -- the `ValueError`s of `create_multi_person_group` and of `add_late_joiner_to_group`
  not_enough_participants : Fault
  user_not_found : Fault
  -- `GroupChatService` raised
  group_service_failed : Fault

pub data Result {ℓ} (A : Type ℓ) : Type ℓ where
  ok : A → Result A
  raised : Fault → Result A

infixl 5 ◌>>=◌
abbrev pub ◌>>=◌ {ℓ κ} : {A : Type ℓ} {B : Type κ} → Result A → (A → Result B) → Result B
ok a >>= f = f a
raised e >>= f = raised e

pub Result-cases {ℓ} :
    {A : Type ℓ} (r : Result A) → ((a : A) × (r ≡ ok a)) ⊎ ((e : Fault) × (r ≡ raised e))
Result-cases (ok a) = inl (a, refl)
Result-cases (raised e) = inr (e, refl)
