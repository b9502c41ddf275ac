-- ===== src/Llm/Completion/Repeat.antt =====
-- `complete` of src/llm/client.py, called twice.
use legal_viet_namese.Base.{
  suc, ℕ, ◌<◌, ◌≡◌, refl, sym, inl, inr, ◌∙◌, true, Option, some, Text, arith, Option-cases, Result,
  ok, err, subst,
}
use legal_viet_namese.Core.Redis.{KeyValues, Codec, cache_get}
use legal_viet_namese.Llm.Lru
use legal_viet_namese.Llm.Lru.{Lru, lookup}
use legal_viet_namese.Llm.Reads.{get-lookup}
use legal_viet_namese.Llm.Completion.{
  Call, Client, World, save, look, model_of, cacheable, call_key, ask, complete_cached, complete,
}
use legal_viet_namese.Llm.Completion.Laws.{Stored, get-Stored, set-Stored, Result-cases}

module _ (kv : KeyValues) {C E : Type 0} (json : Codec C) (sha256 : Text → Text)
    (options_dump : ℕ → Option ℕ → Option Text → Text) (upstream : Text → Call → Result E C)
    (client : Client E) where
  abbrev key : Call → Text
  key = call_key kv json sha256 options_dump upstream client

  abbrev run : Call → World C kv.Store → Result E C × World C kv.Store
  run = complete kv json sha256 options_dump upstream client

  abbrev through : Call → World C kv.Store → Result E C × World C kv.Store
  through call = complete_cached kv json sha256 options_dump upstream client (key call) call

  abbrev Kept : Text → Result E C → Lru C → Type 0
  Kept k (ok v) c = Stored kv json sha256 options_dump upstream client k v c
  Kept k (err e) c = Unit {0}

  get-cap : (c : Lru C) (k : Text) → (Lru.get c k).1.cap ≡ c.cap
  unfolding Lru.get
  get-cap c k = ground arith

  ask-Kept :
      (call : Call) (w : World C kv.Store)
      → 0 < w.lru.cap
      → let (r, w') = ask kv json sha256 options_dump upstream client (some (key call)) call w in
        Kept (key call) r w'.lru
  unfolding ask
  ask-Kept call w pos =
      elim (Result-cases kv json sha256 options_dump upstream client
        (upstream (model_of kv json sha256 options_dump upstream client call) call)) [
          | inl (e, failed) ↦ rw (failed, ask) tt
          | inr (v, answered) ↦ rw (answered, ask) (go v (client.writes (key call)))
        ]
    where
      go :
          (v : C) (r : Result E (Unit {0}))
          → let (x, w') =
              save kv json sha256 options_dump upstream client
                (key call)
                v
                r
                (record w { sent = suc w.sent }) in
            Kept (key call) x w'.lru
      go v (err e) = tt
      go v (ok u) = set-Stored kv json sha256 options_dump upstream client (key call) v w.lru pos

  look-Kept :
      (call : Call) (w : World C kv.Store) (r : Result E (Unit {0}))
      → 0 < w.lru.cap
      → let (x, w') = look kv json sha256 options_dump upstream client (key call) call r w in
        Kept (key call) x w'.lru
  look-Kept call w (err e) pos = tt
  look-Kept call w (ok u) pos = elim (Option-cases (cache_get kv json w.store (key call))) [
    | inr (v, hit) ↦
        rw (hit, look)
          (set-Stored kv json sha256 options_dump upstream client (key call) v w.lru pos)
    | inl gone ↦ rw (gone, look) (ask-Kept call w pos)
  ]

  through-Kept :
      (call : Call) (w : World C kv.Store)
      → 0 < w.lru.cap
      → Kept (key call) (through call w).0 (through call w).1.lru
  unfolding complete_cached
  through-Kept call w pos = elim (Option-cases (Lru.get w.lru (key call)).0) [
    | inr (v, hit) ↦
        rw (hit, complete_cached)
          (get-Stored kv json sha256 options_dump upstream client (key call) v w.lru pos
            (sym (get-lookup w.lru (key call)) ∙ hit))
    | inl miss ↦
        rw (miss, complete_cached)
          (look-Kept call (record w { lru = (Lru.get w.lru (key call)).1 })
            (client.reads (key call)) (rw (get-cap w.lru (key call)) pos))
  ]

  Stored-answers :
      (call : Call) (v : C) (w : World C kv.Store)
      → lookup (key call) w.lru.d ≡ some v
      → through call w ≡ (ok v, record w { lru = (Lru.get w.lru (key call)).1 })
  unfolding complete_cached
  Stored-answers call v w hit = rw (get-lookup w.lru (key call) ∙ hit, complete_cached) refl

  -- If the process cache has room for an item, then after a cacheable call that succeeded the same
  -- call is answered alike from the process cache:
  -- nothing is sent, and Redis is left alone.
  pub complete_twice :
      (call : Call) (v : C) (w w1 : World C kv.Store)
      → 0 < w.lru.cap
      → cacheable kv json sha256 options_dump upstream client call ≡ true
      → run call w ≡ (ok v, w1)
      → run call w1 ≡ (ok v, record w1 { lru = (Lru.get w1.lru (key call)).1 })
  unfolding complete
  complete_twice call v w w1 pos on first =
      let once : through call w ≡ (ok v, w1) = rw on at first in
      let kept =
        subst (λ (r : Result E C × World C kv.Store). Kept (key call) r.0 r.1.lru) once
          (through-Kept call w pos) in
      rw on (Stored-answers call v w1 kept.1)
