-- ===== src/Redis/Once.antt =====
-- An operation is new once: `check_idempotency` and the decorator `with_idempotency`.
use franklink.Prelude.{
  ℕ, ◌+◌, ◌<◌, ◌≡◌, refl, ap, ◌∙◌, true, false, not, Option, none, some, List, IsPresent,
  IsPresent-some,
}
use franklink.Text.{Text}
use franklink.Redis.Server.{value_at, is_held, value_before, Server}
use franklink.Redis.Client.{
  Defaults, processed, ttl_or, opens_if_failed, check_idempotency, duplicate, response,
  with_idempotency, event_key,
}
use franklink.Redis.Run.{Call, QuietUntil, run_calls, run_calls-entry}

module _ (S : Server) (defaults : Defaults) where
  open S use {Store, entry, set_nx, set_nx_answer, set_nx_set}

  -- A key that holds a value is not new, unless Redis fails.
  refused :
      (key : Text) (ttl : Option ℕ) (now : ℕ) (st : Store)
      → is_held (value_at now (entry key st)) ≡ true
      → IsPresent (set_nx key processed (ttl_or ttl (defaults.redis_idempotency_ttl)) now st).0
      → (check_idempotency S defaults key ttl now st).0 ≡ false
  unfolding check_idempotency
  refused key ttl now st held answers =
      let (b, answer) = IsPresent-some _ answers in
      ap opens_if_failed answer ∙ set_nx_answer key processed _ now st b answer ∙ ap not held

  module _ {J : Type 0} (dumps : J → Option Text) where
    -- After `check_idempotency` has set a key, each later check of the key before its time to live
    -- ends says that the operation is a duplicate, unless Redis fails at that check; in between,
    -- any calls of the client on other keys and any checks may come.
    pub check_idempotency-once :
        (key : Text) (ttl ttl' : Option ℕ) (now later : ℕ) (calls : List (ℕ × Call J)) (st : Store)
        → (set_nx key processed (ttl_or ttl (defaults.redis_idempotency_ttl)) now st).0 ≡ some true
        → QuietUntil (now + ttl_or ttl (defaults.redis_idempotency_ttl)) key calls
        → later < now + ttl_or ttl (defaults.redis_idempotency_ttl)
        → IsPresent
            (set_nx key processed
              (ttl_or ttl' (defaults.redis_idempotency_ttl))
              later
              (run_calls S defaults dumps calls (check_idempotency S defaults key ttl now st).1)).0
        → (check_idempotency S defaults key ttl' later
            (run_calls S defaults dumps calls (check_idempotency S defaults key ttl now st).1)).0
          ≡ false
    unfolding check_idempotency
    check_idempotency-once key ttl ttl' now later calls st set quiet before answers =
        refused key ttl' later _
          (ap is_held (
            value_before _ _ later
              (run_calls-entry S defaults dumps key _ calls _
                (set_nx_set key processed _ now st set) quiet)
              before))
          answers

  module _ {R : Type 0} where
    response-store : (p : Option R × Store) → (response S defaults p).1 ≡ p.1
    response-store (none, st) = refl
    response-store (some r, st) = refl

    wrapper_new :
        (prefix event : Text) (func : Store → Option R × Store) (now : ℕ) (st : Store)
        → (check_idempotency S defaults (event_key prefix event) none now st).0 ≡ true
        → with_idempotency S defaults prefix event func now st
          ≡ response S defaults
              (func (check_idempotency S defaults (event_key prefix event) none now st).1)
    unfolding with_idempotency check_idempotency
    wrapper_new prefix event func now st h = rw h refl

    wrapper_duplicate :
        (prefix event : Text) (func : Store → Option R × Store) (now : ℕ) (st : Store)
        → (check_idempotency S defaults (event_key prefix event) none now st).0 ≡ false
        → (with_idempotency S defaults prefix event func now st).0 ≡ duplicate
    unfolding with_idempotency check_idempotency
    wrapper_duplicate prefix event func now st h = rw h refl

    module _ {J : Type 0} (dumps : J → Option Text) where
      -- Where the check of a decorated call sets the key of its event, the function runs; and
      -- whatever it answers, also where it raises, each later call for the event before the time
      -- to live ends answers that it is a duplicate, without running its function, unless Redis
      -- fails at its check. The function, and what happens in between, leave the key alone.
      pub with_idempotency-once :
          (prefix event : Text) (func func' : Store → Option R × Store) (now later : ℕ)
          (calls : List (ℕ × Call J)) (st : Store)
          → (set_nx (event_key prefix event) processed (defaults.redis_idempotency_ttl) now st).0
            ≡ some true
          → ((s : Store)
              → entry (event_key prefix event) (func s).1 ≡ entry (event_key prefix event) s)
          → QuietUntil (now + defaults.redis_idempotency_ttl) (event_key prefix event) calls
          → later < now + defaults.redis_idempotency_ttl
          → IsPresent
              (set_nx (event_key prefix event) processed (defaults.redis_idempotency_ttl) later (
                run_calls S defaults dumps calls
                  (with_idempotency S defaults prefix event func now st).1)).0
          → ((with_idempotency S defaults prefix event func now st).0
              ≡ (response S defaults
                  (func (check_idempotency S defaults (event_key prefix event) none now st).1)).0)
            × ((with_idempotency S defaults prefix event func' later (
                  run_calls S defaults dumps calls
                    (with_idempotency S defaults prefix event func now st).1)).0
                ≡ duplicate)
      unfolding check_idempotency
      with_idempotency-once prefix event func func' now later calls st set keeps quiet before
            answers =
          let first = wrapper_new prefix event func now st (ap opens_if_failed set) in
          let held =
            ap (λ w. entry (event_key prefix event) w.1) first
            ∙ ap (entry (event_key prefix event)) (response-store _)
            ∙ keeps _
            ∙ set_nx_set (event_key prefix event) processed _ now st set in
          (
            ap (λ w. w.0) first,
            wrapper_duplicate prefix event func' later _ (
                refused (event_key prefix event) none later _
                  (ap is_held (
                    value_before _ _ later
                      (run_calls-entry S defaults dumps (event_key prefix event) _ calls _ held
                        quiet)
                      before))
                  answers),
          )
