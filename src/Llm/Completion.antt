-- ===== src/Llm/Completion.antt =====
-- `LLMClient.complete` of src/llm/client.py: an answer from the process cache, from Redis, or from
-- the API. A JSON value that is passed on unread (messages, tools, response format) is its dump.
pub mod Laws
pub mod Repeat
use legal_viet_namese.Base.{
  ℕ, suc, Bool, true, false, ◌&&◌, not, List, [], ◌∷◌, Option, none, some, Text, chars, is_some,
  ◌==◌, if◌then◌else◌, Result, ok, err, Exec,
}
use legal_viet_namese.Core.Redis.{KeyValues, Codec, make_key, cache_get, cache_set}
use legal_viet_namese.Llm.Lru
use legal_viet_namese.Llm.Lru.{Lru}

-- The arguments of `complete`; the temperature is in hundredths.
pub record Call : Type 0 where
  pub messages : Text
  pub model : Option Text
  pub temperature : ℕ
  pub max_tokens : Option ℕ
  pub response_format : Option Text
  pub tools : Option Text
  pub tool_choice : Option Text
  pub use_cache : Bool
  pub extra : Option Text

-- the settings that the client reads, and whether a GET and a SET of a key get an answer from Redis
pub record Client (E : Type 0) : Type 0 where
  pub default_model : Text
  pub ttl_s : ℕ
  pub reads : Text → Result E (Unit {0})
  pub writes : Text → Result E (Unit {0})

-- `model or self.model`: an empty name is false too
abbrev pub model_or : Option Text → Text → Text
model_or none d = d
model_or (some []) d = d
model_or (some (c ∷ cs)) d = c ∷ cs

-- the process cache, Redis, and how many calls the API got
pub record World (C Store : Type 0) : Type 0 where
  pub lru : Lru C
  pub store : Store
  pub sent : ℕ

-- `C` is a ChatCompletion, `upstream model call` the API's answer after the retries, and
-- `options_dump` the JSON of `{"t": temperature, "max": max_tokens, "rf": response_format}`.
module _ (kv : KeyValues) {C E : Type 0} (json : Codec C) (sha256 : Text → Text)
    (options_dump : ℕ → Option ℕ → Option Text → Text) (upstream : Text → Call → Result E C)
    (client : Client E) where
  abbrev pub model_of : Call → Text
  model_of call = model_or call.model client.default_model

  abbrev pub cacheable : Call → Bool
  cacheable call = call.use_cache && ((call.temperature == 0) && not (is_some call.tools))

  pub call_key : Call → Text
  call_key call = make_key sha256 (chars "llm") (
      model_of call
      ∷ call.messages
      ∷ options_dump call.temperature call.max_tokens call.response_format
      ∷ [])

  -- a new answer goes into the process cache, and into Redis if that answers
  abbrev pub save : Text → C → Result E (Unit {0}) → Exec (World C kv.Store) E C
  save k result (err e) w = (err e, record w { lru = Lru.set w.lru k result })
  save k result (ok u) w = (
    ok result,
    record w {
      lru = Lru.set w.lru k result;
      store = cache_set kv json k result client.ttl_s w.store;
    },
  )

  -- the call of the API, and what follows it
  unfoldable pub ask : Option Text → Call → Exec (World C kv.Store) E C
  ask key call w = elim (upstream (model_of call) call) [
    | err e ↦ (err e, record w { sent = suc w.sent })
    | ok result ↦ elim key [
      | none ↦ (ok result, record w { sent = suc w.sent })
      | some k ↦ save k result (client.writes k) (record w { sent = suc w.sent })
    ]
  ]

  -- the lookup in Redis, if that answers
  abbrev pub look : Text → Call → Result E (Unit {0}) → Exec (World C kv.Store) E C
  look k call (err e) w = (err e, w)
  look k call (ok u) w = elim (cache_get kv json w.store k) [
    | some found ↦ (ok found, record w { lru = Lru.set w.lru k found })
    | none ↦ ask (some k) call w
  ]

  -- the two lookups under a key
  unfoldable pub complete_cached : Text → Call → Exec (World C kv.Store) E C
  complete_cached k call w =
      let (v, lru') = Lru.get w.lru k in
      elim v [
        | some found ↦ (ok found, record w { lru = lru' })
        | none ↦ look k call (client.reads k) (record w { lru = lru' })
      ]

  unfoldable pub complete : Call → Exec (World C kv.Store) E C
  complete call w =
      if cacheable call then complete_cached (call_key call) call w else ask none call w
