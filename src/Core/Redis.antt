-- ===== src/Core/Redis.antt =====
-- src/core/redis.py: cache keys, and values cached as JSON under a time to live.
use mathlib.Core.List.{append_cancel_left, append_cancel_right}
use legal_viet_namese.Base.{
  All, ◌==◌, false, arith, subst, sym, or_else, ℕ, ◌≡◌, refl, ap, ◌∙◌, ◌⊎◌, inl, inr, List, [], ◌∷◌,
  ◌++◌, Option, none, some, Text, chars,
}

-- The Redis commands GET, SET … EX and DEL are parameters. A value may expire or be evicted at any
-- time, so a GET promises only that what it finds was set.
pub record KeyValues : Type 1 where
  pub Store : Type 0
  pub get : Store → Text → Option Text
  pub set : Text → Text → ℕ → Store → Store
  pub del : Text → Store → Store
  pub get-set :
      (k j raw r : Text) (ttl_s : ℕ) (s : Store)
      → get (set k raw ttl_s s) j ≡ some r
      → ((k ≡ j) × (r ≡ raw)) ⊎ (get s j ≡ some r)
  pub get-del : (k : Text) (s : Store) → get (del k s) k ≡ none

-- what the hash object has read: every part, and a bar behind it
pub hashed : List Text → Text
hashed [] = []
hashed (p ∷ ps) = p ++ (chars "|" ++ hashed ps)

-- `sha256` gives the hex digest. A part that is no string is passed as its `orjson.dumps`.
pub make_key : (Text → Text) → Text → List Text → Text
make_key sha256 namespace parts = namespace ++ (chars ":" ++ sha256 (hashed parts))

module _ (sha256 : Text → Text) (injective : (x y : Text) → sha256 x ≡ sha256 y → x ≡ y)
    (namespace : Text) where
  key_bytes :
      (ps qs : List Text)
      → make_key sha256 namespace ps ≡ make_key sha256 namespace qs
      → hashed ps ≡ hashed qs
  unfolding make_key
  key_bytes ps qs e =
      injective _ _ (append_cancel_left (chars ":") _ _ (append_cancel_left namespace _ _ e))

  -- Two keys that differ in their last part only are equal exactly for equal parts.
  pub make_key-last :
      (model t u : Text)
      → make_key sha256 namespace (model ∷ t ∷ []) ≡ make_key sha256 namespace (model ∷ u ∷ [])
      → t ≡ u
  unfolding hashed
  make_key-last model t u e =
      append_cancel_right t u (chars "|" ++ [])
        (append_cancel_left (chars "|") _ _ (append_cancel_left model _ _ (key_bytes _ _ e)))

-- no bar
abbrev pub IsPlain : Text → Type 0
IsPlain t = All (λ c. (c == b'|') ≡ false) t

pub IsPlain-cancel :
    (t u x y : Text) → IsPlain t → IsPlain u → t ++ (chars "|" ++ x) ≡ u ++ (chars "|" ++ y) → t ≡ u
IsPlain-cancel [] [] x y p q e = refl
IsPlain-cancel [] (c ∷ u) x y p q e = let same : b'|' ≡ c = cc e in ground (arith, q.0)
IsPlain-cancel (c ∷ t) [] x y p q e = let same : c ≡ b'|' = cc e in ground (arith, p.0)
IsPlain-cancel (c ∷ t) (d ∷ u) x y p q e =
    let same : c ≡ d = cc e in
    let rest : t ++ (chars "|" ++ x) ≡ u ++ (chars "|" ++ y) = cc e in
    let tails : t ≡ u = IsPlain-cancel t u x y p.1 q.1 rest in cc

-- Keys of three parts are equal only for equal parts, if the first has no bar and the second shows
-- where it ends.
module _ (sha256 : Text → Text) (injective : (x y : Text) → sha256 x ≡ sha256 y → x ≡ y)
    (namespace : Text) (Delimited : Text → Type 0)
    (delimits : (t u x y : Text)
      → Delimited t
      → Delimited u
      → t ++ (chars "|" ++ x) ≡ u ++ (chars "|" ++ y)
      → t ≡ u) where
  pub make_key-parts :
      (m n t u o p : Text)
      → IsPlain m
      → IsPlain n
      → Delimited t
      → Delimited u
      → make_key sha256 namespace (m ∷ t ∷ o ∷ []) ≡ make_key sha256 namespace (n ∷ u ∷ p ∷ [])
      → (m ≡ n) × (t ≡ u) × (o ≡ p)
  unfolding hashed
  make_key-parts m n t u o p plain plain' ends ends' e =
      let bytes = key_bytes sha256 injective namespace (m ∷ t ∷ o ∷ []) (n ∷ u ∷ p ∷ []) e in
      let first : m ≡ n = IsPlain-cancel m n _ _ plain plain' bytes in
      let behind : t ++ (chars "|" ++ (o ++ (chars "|" ++ [])))
          ≡ u ++ (chars "|" ++ (p ++ (chars "|" ++ []))) =
        append_cancel_left (chars "|") _ _ (
          append_cancel_left n _ _ (
            subst
              (λ x.
                x ++ (chars "|" ++ (t ++ (chars "|" ++ (o ++ (chars "|" ++ [])))))
                ≡ n ++ (chars "|" ++ (u ++ (chars "|" ++ (p ++ (chars "|" ++ []))))))
              first bytes)) in
      let second : t ≡ u = delimits t u _ _ ends ends' behind in
      let last : o ++ (chars "|" ++ []) ≡ p ++ (chars "|" ++ []) =
        append_cancel_left (chars "|") _ _ (
          append_cancel_left u _ _ (
            subst
              (λ x.
                x ++ (chars "|" ++ (o ++ (chars "|" ++ [])))
                ≡ u ++ (chars "|" ++ (p ++ (chars "|" ++ []))))
              second behind)) in
      (first, second, append_cancel_right o p (chars "|" ++ []) last)

-- `orjson.dumps` and `orjson.loads` at the type of the cached values
pub record Codec (V : Type 0) : Type 0 where
  pub dumps : V → Text
  pub loads : Text → V
  pub loads-dumps : (v : V) → loads (dumps v) ≡ v

module _ (kv : KeyValues) {V : Type 0} (json : Codec V) where
  -- What the two return or leave when Redis answers. Whether it does is the callers' part: in
  -- src/retrieval and in `LLMClient.complete` they raise where it does not.
  unfoldable pub cache_get : kv.Store → Text → Option V
  cache_get s key = elim (kv.get s key) [ none ↦ none | some raw ↦ some (json.loads raw) ]

  unfoldable pub cache_set : Text → V → ℕ → kv.Store → kv.Store
  cache_set key value ttl_s s = kv.set key (json.dumps value) ttl_s s

  -- What a cache holds under a key satisfies P.
  abbrev pub Coherent : (Text → V → Type 0) → kv.Store → Type 0
  Coherent P s = (key raw : Text) → kv.get s key ≡ some raw → P key (json.loads raw)

  pub cache_get-holds :
      (P : Text → V → Type 0) (s : kv.Store) (key : Text) (v : V)
      → Coherent P s
      → cache_get s key ≡ some v
      → P key v
  unfolding cache_get
  cache_get-holds P s key v c e = go (kv.get s key) refl e
    where
      go :
          (r : Option Text)
          → kv.get s key ≡ r
          → (elim r [ none ↦ none | some raw ↦ some (json.loads raw) ]) ≡ some v
          → P key v
      go none found h = cc
      go (some raw) found h = subst (P key) (ap (λ o. or_else o v) h) (c key raw found)

  pub cache_set-Coherent :
      (P : Text → V → Type 0) (key : Text) (v : V) (ttl_s : ℕ) (s : kv.Store)
      → P key v
      → Coherent P s
      → Coherent P (cache_set key v ttl_s s)
  unfolding cache_set
  cache_set-Coherent P key v ttl_s s p c = λ j r found. elim (kv.get-set key j _ r ttl_s s found) [
    | inl (same, e) ↦
        subst (λ k. P k (json.loads r)) same
          (subst (P key) (sym (ap json.loads e ∙ json.loads-dumps v)) p)
    | inr old ↦ c j r old
  ]
