-- ===== src/Redis/Cache.antt =====
-- What was cached is what is read before it expires.
use mathlib.Core.Path.{subst}
use franklink.Prelude.{
  ℕ, ◌+◌, ◌<◌, ◌≡◌, ◌≢◌, refl, ap, ◌∙◌, true, Option, none, some, List, [], ◌∷◌, IsPresent,
  IsPresent-some,
}
use franklink.Text.{Text}
use franklink.Redis.Server.{text, value_before, Reads, Server}
use franklink.Redis.Client.{
  Defaults, ttl_or, hit, chat_guid_key, cache_chat_guid, get_cached_chat_guid, set_cached,
  get_cached, set_serialized, load_hit,
}
use franklink.Redis.Run.{Call, QuietUntil, run_calls, run_calls-entry}

module _ (S : Server) (defaults : Defaults) where
  open S use {Store, entry, get, setex, setex_set, get_answer}

  read_text :
      (key t : Text) (expires now : ℕ) (st : Store)
      → entry key st ≡ some (record { value = text t; expires = expires })
      → now < expires
      → IsPresent (get key now st)
      → get key now st ≡ some (some t)
  read_text key t expires now st held before answers =
      let (o, answer) = IsPresent-some (get key now st) answers in
      let same : o ≡ some t =
        subst (λ v. Reads v o) (value_before _ _ now held before)
          (get_answer key now st o answer) in
      answer ∙ ap some same

  hit_full : (t : Text) → t ≢ [] → hit (some (some t)) ≡ some t
  hit_full [] full = absurd (full refl)
  hit_full (c ∷ t) full = refl

  module _ {J : Type 0} (dumps : J → Option Text) where
    -- What follows a write of a text under a key, until it is read.
    written_read :
        (key t : Text) (expires later : ℕ) (calls : List (ℕ × Call J)) (st : Store)
        → entry key st ≡ some (record { value = text t; expires = expires })
        → t ≢ []
        → QuietUntil expires key calls
        → later < expires
        → IsPresent (get key later (run_calls S defaults dumps calls st))
        → hit (get key later (run_calls S defaults dumps calls st)) ≡ some t
    written_read key t expires later calls st held full quiet before answers =
        ap hit (
          read_text key t expires later _
            (run_calls-entry S defaults dumps key _ calls st held quiet) before answers)
        ∙ hit_full t full

    -- A chat GUID that is not empty and was cached for a phone number is what
    -- `get_cached_chat_guid` answers for that number before the time to live ends, unless Redis
    -- fails at the reading; in between, any calls of the client on other keys may come.
    pub get_cached_chat_guid-cache_chat_guid :
        (phone guid : Text) (ttl now later : ℕ) (calls : List (ℕ × Call J)) (st : Store)
        → (cache_chat_guid S defaults phone guid ttl now st).0 ≡ true
        → guid ≢ []
        → QuietUntil (now + ttl) (chat_guid_key phone) calls
        → later < now + ttl
        → IsPresent (
            get (chat_guid_key phone) later (
              run_calls S defaults dumps calls
                (cache_chat_guid S defaults phone guid ttl now st).1))
        → get_cached_chat_guid S defaults phone later
            (run_calls S defaults dumps calls (cache_chat_guid S defaults phone guid ttl now st).1)
          ≡ some guid
    unfolding cache_chat_guid get_cached_chat_guid
    get_cached_chat_guid-cache_chat_guid phone guid ttl now later calls st set full quiet before
          answers =
        written_read (chat_guid_key phone) guid (now + ttl) later calls _
          (setex_set (chat_guid_key phone) ttl (text guid) now st set) full quiet before answers

    serialized_held :
        (key t : Text) (o : Option Text) (ttl now : ℕ) (st : Store)
        → o ≡ some t
        → (set_serialized S defaults dumps key o ttl now st).0 ≡ true
        → entry key (set_serialized S defaults dumps key o ttl now st).1
          ≡ some (record { value = text t; expires = now + ttl })
    serialized_held key t none ttl now st o set = cc
    serialized_held key t (some s) ttl now st o set =
        setex_set key ttl (text s) now st set
        ∙ ap (λ i. some (record { value = text i; expires = now + ttl })) cc

    module _ (loads : Text → Option J) where
      -- A value that was cached is what `get_cached` answers before the time to live ends, where
      -- json reads back the text that it wrote and that is not empty, unless Redis fails at the
      -- reading; in between, any calls of the client on other keys may come.
      pub get_cached-set_cached :
          (key t : Text) (value : J) (ttl : Option ℕ) (now later : ℕ) (calls : List (ℕ × Call J))
          (st : Store)
          → dumps value ≡ some t
          → loads t ≡ some value
          → t ≢ []
          → (set_cached S defaults dumps key value ttl now st).0 ≡ true
          → QuietUntil (now + ttl_or ttl (defaults.redis_cache_ttl)) key calls
          → later < now + ttl_or ttl (defaults.redis_cache_ttl)
          → IsPresent (
              get key later (
                run_calls S defaults dumps calls
                  (set_cached S defaults dumps key value ttl now st).1))
          → get_cached S defaults loads key later (
              run_calls S defaults dumps calls (set_cached S defaults dumps key value ttl now st).1)
            ≡ some value
      unfolding set_cached get_cached
      get_cached-set_cached key t value ttl now later calls st dumped read full set quiet before
            answers =
          ap (load_hit S defaults loads) (
            written_read key t _ later calls _
              (serialized_held key t (dumps value) _ now st dumped set) full quiet before answers)
          ∙ read
