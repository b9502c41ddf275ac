-- ===== src/Llm/Completion/Laws.antt =====
-- `complete` of src/llm/client.py beside the API that it calls.
use legal_viet_namese.Base.{
  none, ◌++◌, chars, ℕ, suc, ◌<◌, ◌≡◌, refl, sym, ap, ◌⊎◌, inl, inr, ◌∙◌, Bool, true, false, Option,
  some, Text, arith, Bool-cases, Option-cases, Result, ok, err, subst, text_eq_refl,
}
use legal_viet_namese.Core.Redis.{
  KeyValues, Codec, cache_get, cache_get-holds, cache_set-Coherent, Coherent, IsPlain,
  make_key-parts,
}
use legal_viet_namese.Llm.Lru
use legal_viet_namese.Llm.Lru.{Lru, lookup, lookup-put_last}
use legal_viet_namese.Llm.Holding.{Holds, lookup-Holds, get-Holds, set-Holds}
use legal_viet_namese.Llm.Reads.{get-lookup, get-set}
use legal_viet_namese.Llm.Completion.{
  Call, Client, World, save, look, model_of, cacheable, call_key, ask, complete_cached, complete,
}

module _ (kv : KeyValues) {C E : Type 0} (json : Codec C) (sha256 : Text → Text)
    (options_dump : ℕ → Option ℕ → Option Text → Text) (upstream : Text → Call → Result E C)
    (client : Client E) where
  abbrev key : Call → Text
  key = call_key kv json sha256 options_dump upstream client

  abbrev api : Call → Result E C
  api call = upstream (model_of kv json sha256 options_dump upstream client call) call

  abbrev run : Call → World C kv.Store → Result E C × World C kv.Store
  run = complete kv json sha256 options_dump upstream client

  abbrev caches : Call → Bool
  caches = cacheable kv json sha256 options_dump upstream client

  -- The key of a call names it: the model's name has no bar, the messages show where they end, and
  -- nothing is asked that the key leaves out.
  pub record IsNamed (Delimited : Text → Type 0) (call : Call) : Type 0 where
    pub model : IsPlain (model_of kv json sha256 options_dump upstream client call)
    pub messages : Delimited call.messages
    pub no_choice : call.tool_choice ≡ none
    pub no_extra : call.extra ≡ none

  -- What is cached under the key of a call that the key names is the API's answer to the call.
  abbrev pub Right : (Text → Type 0) → Text → C → Type 0
  Right Delimited k v =
      (call : Call) → caches call ≡ true → IsNamed Delimited call → k ≡ key call → api call ≡ ok v

  pub record AreRight (Delimited : Text → Type 0) (w : World C kv.Store) : Type 0 where
    pub lru : Holds (Right Delimited) w.lru
    pub store : Coherent kv json (Right Delimited) w.store

  -- Without the cache the API is asked, and no cache is read or written.
  pub complete-uncached :
      (call : Call) (w : World C kv.Store)
      → caches call ≡ false
      → run call w ≡ (api call, record w { sent = suc w.sent })
  unfolding complete ask
  complete-uncached call w h = ground arith

  pub Result-cases : (r : Result E C) → ((e : E) × (r ≡ err e)) ⊎ ((c : C) × (r ≡ ok c))
  Result-cases (err e) = inl (e, refl)
  Result-cases (ok c) = inr (c, refl)

  module _ (Delimited : Text → Type 0)
      (delimits : (t u x y : Text)
        → Delimited t
        → Delimited u
        → t ++ (chars "|" ++ x) ≡ u ++ (chars "|" ++ y)
        → t ≡ u)
      (injective : (x y : Text) → sha256 x ≡ sha256 y → x ≡ y)
      (dumped : (t u : ℕ) (m n : Option ℕ) (r s : Option Text)
        → options_dump t m r ≡ options_dump u n s
        → (t ≡ u) × (m ≡ n) × (r ≡ s))
      (blind : (model : Text) (a b : Call)
        → a.messages ≡ b.messages
        → a.temperature ≡ b.temperature
        → a.max_tokens ≡ b.max_tokens
        → a.response_format ≡ b.response_format
        → a.tools ≡ b.tools
        → a.tool_choice ≡ b.tool_choice
        → a.extra ≡ b.extra
        → upstream model a ≡ upstream model b) where
    abbrev Fits : Text → C → Type 0
    Fits = Right Delimited

    -- the API's answer, or an exception of Redis; and the caches hold the API's answers
    pub record Served (call : Call) (y : Result E C × World C kv.Store) : Type 0 where
      pub answered :
          (y.0 ≡ api call)
          ⊎ ((e : E) × (y.0 ≡ err e)
              × (k : Text) × ((client.reads k ≡ err e) ⊎ (client.writes k ≡ err e)))
      pub right : AreRight Delimited y.1

    no_tools : (call : Call) → caches call ≡ true → call.tools ≡ none
    no_tools call on = elim (Option-cases call.tools) [
      | inl gone ↦ gone
      | inr (x, some_tools) ↦
          absurd (let off : caches call ≡ false = rw some_tools (ground arith) in cc)
    ]

    same :
        (a b : Call)
        → caches a ≡ true
        → caches b ≡ true
        → IsNamed Delimited a
        → IsNamed Delimited b
        → key a ≡ key b
        → api a ≡ api b
    unfolding call_key
    same a b on on' x y e =
        let parts =
          make_key-parts sha256 injective (chars "llm") Delimited delimits _ _ _ _ _ _ x.model
            y.model x.messages y.messages e in
        let options = dumped a.temperature b.temperature _ _ _ _ parts.2 in
        ap (λ m. upstream m a) parts.0
        ∙ blind _ a b parts.1 options.0 options.1 options.2 (no_tools a on ∙ sym (no_tools b on'))
            (x.no_choice ∙ sym y.no_choice) (x.no_extra ∙ sym y.no_extra)

    save-api :
        (call : Call) (v : C) (r : Result E (Unit {0})) (w : World C kv.Store)
        → client.writes (key call) ≡ r
        → api call ≡ ok v
        → Fits (key call) v
        → AreRight Delimited w
        → Served call (save kv json sha256 options_dump upstream client (key call) v r w)
    save-api call v (ok u) w e answered right h = record {
      answered = inl (sym answered);
      right = record {
        lru = set-Holds Fits w.lru (key call) v right h.lru;
        store = cache_set-Coherent kv json Fits (key call) v client.ttl_s w.store right h.store;
      };
    }
    save-api call v (err x) w e answered right h = record {
      answered = inr (x, refl, key call, inr e);
      right = record { lru = set-Holds Fits w.lru (key call) v right h.lru; store = h.store };
    }

    ask-api :
        (call : Call) (w : World C kv.Store)
        → caches call ≡ true
        → IsNamed Delimited call
        → AreRight Delimited w
        → Served call (ask kv json sha256 options_dump upstream client (some (key call)) call w)
    unfolding ask
    ask-api call w on named h = elim (Result-cases (api call)) [
      | inl (e, failed) ↦
          rw (failed, ask)
            (record {
              answered = inl (sym failed);
              right = record { lru = h.lru; store = h.store };
            })
      | inr (v, answered) ↦
          let right : Fits (key call) v =
            λ other on' named' k. sym (same call other on on' named named' k) ∙ answered in
          rw (answered, ask)
            (save-api call v (client.writes (key call)) _ refl answered right
              (record { lru = h.lru; store = h.store }))
    ]

    look-api :
        (call : Call) (r : Result E (Unit {0})) (w : World C kv.Store)
        → client.reads (key call) ≡ r
        → caches call ≡ true
        → IsNamed Delimited call
        → AreRight Delimited w
        → Served call (look kv json sha256 options_dump upstream client (key call) call r w)
    look-api call (err x) w e on named h = record {
      answered = inr (x, refl, key call, inl e);
      right = h;
    }
    look-api call (ok u) w e on named h =
        elim (Option-cases (cache_get kv json w.store (key call))) [
          | inr (v, hit) ↦
              let right : Fits (key call) v =
                cache_get-holds kv json Fits w.store (key call) v h.store hit in
              rw (hit, look)
                (record {
                  answered = inl (sym (right call on named refl));
                  right = record {
                    lru = set-Holds Fits w.lru (key call) v right h.lru;
                    store = h.store;
                  };
                })
          | inl gone ↦ rw (gone, look) (ask-api call w on named h)
        ]

    complete_cached-api :
        (call : Call) (w : World C kv.Store)
        → caches call ≡ true
        → IsNamed Delimited call
        → AreRight Delimited w
        → Served call
            (complete_cached kv json sha256 options_dump upstream client (key call) call w)
    unfolding complete_cached
    complete_cached-api call w on named h = elim (Option-cases (Lru.get w.lru (key call)).0) [
      | inr (v, hit) ↦
          let right =
            lookup-Holds Fits (key call) v w.lru.d h.lru (sym (get-lookup w.lru (key call)) ∙ hit)
              call on named refl in
          rw (hit, complete_cached)
            (record {
              answered = inl (sym right);
              right = record { lru = get-Holds Fits w.lru (key call) h.lru; store = h.store };
            })
      | inl miss ↦
          rw (miss, complete_cached)
            (look-api call (client.reads (key call))
              (record w { lru = (Lru.get w.lru (key call)).1 }) refl on named
              (record { lru = get-Holds Fits w.lru (key call) h.lru; store = h.store }))
    ]

    -- Suppose that the hash is injective, that the dump of the options tells them apart, that dumped
    -- messages show where they end, and that the API sees of a call its model, messages and options.
    -- If the caches hold the API's answers, a call whose model has no bar in its name and which has
    -- neither a tool choice nor extra arguments gets the API's answer, its error included, or the
    -- exception of a GET or a SET that Redis did not answer; and the caches still hold the API's
    -- answers.
    pub complete-api :
        (call : Call) (w : World C kv.Store)
        → IsNamed Delimited call
        → AreRight Delimited w
        → Served call (run call w)
    unfolding complete
    complete-api call w named h = elim (Bool-cases (caches call)) [
      | inl on ↦ rw on (complete_cached-api call w on named h)
      | inr off ↦
          subst (Served call) (sym (complete-uncached call w off))
            (record { answered = inl refl; right = record { lru = h.lru; store = h.store } })
    ]

  -- the process cache answers for a key
  abbrev pub Stored : Text → C → Lru C → Type 0
  Stored k v c = (0 < c.cap) × (lookup k c.d ≡ some v)

  pub get-Stored :
      (k : Text) (v : C) (c : Lru C)
      → 0 < c.cap
      → lookup k c.d ≡ some v
      → Stored k v (Lru.get c k).1
  unfolding Lru.get
  get-Stored k v c pos hit =
      rw (hit, Lru.get) (pos, lookup-put_last k k v c.d ∙ rw (text_eq_refl k))

  pub set-Stored : (k : Text) (v : C) (c : Lru C) → 0 < c.cap → Stored k v (Lru.set c k v)
  unfolding Lru.set
  set-Stored k v c pos = (ground arith, sym (get-lookup (Lru.set c k v) k) ∙ get-set c k v pos)
