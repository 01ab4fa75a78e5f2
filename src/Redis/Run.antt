-- ===== src/Redis/Run.antt =====
-- Runs of the client's calls, and the keys that they leave alone.
use mathlib.Core.Path.{subst}
use franklink.Prelude.{
  ℕ, ◌<◌, ◌≡◌, refl, sym, ap, ◌∙◌, true, false, Option, none, some, List, [], ◌∷◌, All, inl, inr,
  Bool-cases,
}
use franklink.Text.{Text, codes}
use franklink.Text.Equal.{text_eq, text_eq→≡}
use franklink.Redis.Server.{text, Entry, value_at, is_held, value_before, Server}
use franklink.Redis.Client.{
  Defaults, processed, chat_guid_key, breaker_key, check_idempotency, mark_processed,
  invalidate_cache, check_rate_limit, cache_chat_guid, open_circuit_breaker, close_circuit_breaker,
  set_serialized, set_cached,
}

pub data Call (J : Type 0) : Type 0 where
  checks : Text → Option ℕ → Call J
  marks : Text → Option ℕ → Call J
  caches : Text → J → Option ℕ → Call J
  invalidates : Text → Call J
  limits : Text → ℕ → Option ℕ → Call J
  caches_guid : Text → Text → ℕ → Call J
  opens : Text → ℕ → Call J
  closes : Text → Call J

-- A call that leaves what is stored under `key`: one on another key, or `check_idempotency`.
abbrev pub Quiet : {J : Type 0} → Text → Call J → Type 0
Quiet key (checks k ttl) = Unit
Quiet key (marks k ttl) = text_eq k key ≡ false
Quiet key (caches k v ttl) = text_eq k key ≡ false
Quiet key (invalidates k) = text_eq k key ≡ false
Quiet key (limits k m w) = text_eq k key ≡ false
Quiet key (caches_guid phone guid ttl) = text_eq (chat_guid_key phone) key ≡ false
Quiet key (opens service ttl) = text_eq (breaker_key service) key ≡ false
Quiet key (closes service) = text_eq (breaker_key service) key ≡ false

-- Each call comes before `expires` and is quiet.
abbrev pub QuietUntil : {J : Type 0} → ℕ → Text → List (ℕ × Call J) → Type 0
QuietUntil expires key = All (λ c. (c.0 < expires) × Quiet key c.1)

module _ (S : Server) (defaults : Defaults) {J : Type 0} (dumps : J → Option Text) where
  open S use {Store, entry, set_nx_kept, set_nx_frame, setex_frame, delete_frame, incr_frame}

  unfoldable pub perform_call : ℕ → Call J → Store → Store
  unfolding check_idempotency mark_processed set_cached invalidate_cache check_rate_limit
      cache_chat_guid open_circuit_breaker close_circuit_breaker
  perform_call now (checks key ttl) st = (check_idempotency S defaults key ttl now st).1
  perform_call now (marks key ttl) st = (mark_processed S defaults key ttl now st).1
  perform_call now (caches key v ttl) st = (set_cached S defaults dumps key v ttl now st).1
  perform_call now (invalidates key) st = (invalidate_cache S defaults key now st).1
  perform_call now (limits key m w) st = (check_rate_limit S defaults key m w now st).1
  perform_call now (caches_guid phone guid ttl) st =
      (cache_chat_guid S defaults phone guid ttl now st).1
  perform_call now (opens service ttl) st = (open_circuit_breaker S defaults service ttl now st).1
  perform_call now (closes service) st = (close_circuit_breaker S defaults service now st).1

  unfoldable pub run_calls : List (ℕ × Call J) → Store → Store
  unfolding perform_call
  run_calls [] st = st
  run_calls ((now, call) ∷ calls) st = run_calls calls (perform_call now call st)

  check-entry :
      (key k : Text) (ttl : Option ℕ) (now : ℕ) (st : Store)
      → is_held (value_at now (entry key st)) ≡ true
      → entry key (check_idempotency S defaults k ttl now st).1 ≡ entry key st
  unfolding check_idempotency
  check-entry key k ttl now st held = elim (Bool-cases (text_eq k key)) [
    | inl same ↦
        let held_k : is_held (value_at now (entry k st)) ≡ true =
          subst (λ j. is_held (value_at now (entry j st)) ≡ true) (sym (text_eq→≡ k key same))
            held in
        subst (λ j. entry j (check_idempotency S defaults k ttl now st).1 ≡ entry j st)
          (text_eq→≡ k key same) (set_nx_kept k processed _ now st held_k)
    | inr other ↦ set_nx_frame k key processed _ now st other
  ]

  set_serialized-entry :
      (key k : Text) (serialized : Option Text) (ttl now : ℕ) (st : Store)
      → text_eq k key ≡ false
      → entry key (set_serialized S defaults dumps k serialized ttl now st).1 ≡ entry key st
  set_serialized-entry key k none ttl now st quiet = refl
  set_serialized-entry key k (some serialized) ttl now st quiet =
      setex_frame k key ttl (text serialized) now st quiet

  perform_call-entry :
      (key : Text) (now : ℕ) (call : Call J) (st : Store)
      → is_held (value_at now (entry key st)) ≡ true
      → Quiet key call
      → entry key (perform_call now call st) ≡ entry key st
  unfolding perform_call mark_processed set_cached invalidate_cache check_rate_limit cache_chat_guid
      open_circuit_breaker close_circuit_breaker
  perform_call-entry key now (checks k ttl) st held quiet = check-entry key k ttl now st held
  perform_call-entry key now (marks k ttl) st held quiet =
      setex_frame k key _ processed now st quiet
  perform_call-entry key now (caches k v ttl) st held quiet =
      set_serialized-entry key k (dumps v) _ now st quiet
  perform_call-entry key now (invalidates k) st held quiet = delete_frame k key now st quiet
  perform_call-entry key now (limits k m w) st held quiet = incr_frame k key _ now st quiet
  perform_call-entry key now (caches_guid phone guid ttl) st held quiet =
      setex_frame (chat_guid_key phone) key ttl (text guid) now st quiet
  perform_call-entry key now (opens service ttl) st held quiet =
      setex_frame (breaker_key service) key ttl (text (codes "open")) now st quiet
  perform_call-entry key now (closes service) st held quiet =
      delete_frame (breaker_key service) key now st quiet

  -- A run of calls that are quiet on a key, before its value expires, keeps that value.
  pub run_calls-entry :
      (key : Text) (e : Entry) (calls : List (ℕ × Call J)) (st : Store)
      → entry key st ≡ some e
      → QuietUntil (e.expires) key calls
      → entry key (run_calls calls st) ≡ some e
  unfolding run_calls
  run_calls-entry key e [] st h quiet = h
  run_calls-entry key e ((now, call) ∷ calls) st h quiet =
      run_calls-entry key e calls (perform_call now call st)
        (perform_call-entry key now call st (ap is_held (value_before e _ now h quiet.0.0))
            quiet.0.1
          ∙ h)
        quiet.1
