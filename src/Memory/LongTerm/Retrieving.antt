-- ===== src/Memory/LongTerm/Retrieving.antt =====
-- Whose facts `retrieve_user_facts` of src/memory/long_term.py returns.
use legal_viet_namese.Base.{
  ℕ, suc, ◌≤◌, ◌≡◌, refl, true, List, [], ◌∷◌, Mem, Option, none, some, Text, Result, ok, err, All,
  length, ◌>>=◌, pure, arith, &&-eq-true, ==_iff, ap,
}
use legal_viet_namese.Db.Models.{Uuid}
use legal_viet_namese.Db.Session.{Exception}
use legal_viet_namese.Retrieval.Scores.{Scores}
use legal_viet_namese.Memory.LongTerm.{
  World, FactPoint, FactPayload, FactCollection, ScoredFact, user_is, fits_all, RetrievedFact,
  the_one, to_facts, add_fact_of, retrieve_user_facts, call, search,
}

module _ (scores : Scores) {Vector : Type 0} (col : FactCollection scores.Score Vector)
    (embed : List Text → Result Exception (List Vector)) (user_id : Uuid) where
  -- the fact is that of a stored point of the user
  pub record IsOwned (s : col.Store) (f : RetrievedFact scores.Score) : Type 0 where
    pub point : FactPoint Vector
    pub stored : Mem point (col.points s)
    pub owner : point.payload.user_id ≡ user_id
    pub same_key : f.key ≡ point.payload.key
    pub same_value : f.value ≡ point.payload.value
    pub same_confidence : f.confidence ≡ point.payload.confidence

  -- Every fact is the user's, there are at most `top_k`, and nothing has changed.
  pub Retrieved :
      ℕ
      → World col.Store
      → Result Exception (List (RetrievedFact scores.Score)) × World col.Store
      → Type 0
  Retrieved top_k w (ok facts, w') = (w' ≡ w) × All (IsOwned w.facts) facts × (length facts ≤ top_k)
  Retrieved top_k w (err e, w') = w' ≡ w

  abbrev Stored : col.Store → ScoredFact scores.Score → Type 0
  Stored s h =
      (q : FactPoint Vector) × Mem q (col.points s)
      × (q.id ≡ h.id)
      × (fits_all (user_is user_id ∷ []) q.payload ≡ true)
      × ((p : FactPayload) → h.payload ≡ some p → p ≡ q.payload)

  length-to_facts :
      (hs : List (ScoredFact scores.Score)) → length (to_facts scores col embed hs) ≤ length hs
  length-to_facts [] = omega arith
  length-to_facts (h ∷ hs) = go h.payload (to_facts scores col embed hs) (length-to_facts hs)
    where
      go :
          (o : Option FactPayload) (out : List (RetrievedFact scores.Score))
          → length out ≤ length hs
          → length (add_fact_of scores col embed h o out) ≤ suc (length hs)
      go none out k = omega (arith, k)
      go (some p) out k = omega (arith, k)

  to_facts-IsOwned :
      (s : col.Store) (hs : List (ScoredFact scores.Score))
      → All (Stored s) hs
      → All (IsOwned s) (to_facts scores col embed hs)
  to_facts-IsOwned s [] a = tt
  to_facts-IsOwned s (h ∷ hs) (a, rest) =
      go h.payload refl (to_facts scores col embed hs) (to_facts-IsOwned s hs rest)
    where
      go :
          (o : Option FactPayload)
          → h.payload ≡ o
          → (out : List (RetrievedFact scores.Score)) → All (IsOwned s) out
          → All (IsOwned s) (add_fact_of scores col embed h o out)
      go none e out k = k
      go (some p) e out k =
          let same : p ≡ a.0.payload = a.4 p e in
          (
            record {
              point = a.0;
              stored = a.1;
              owner = (==_iff _ _).0 (&&-eq-true _ _ a.3).0;
              same_key = ap (λ x. x.key) same;
              same_value = ap (λ x. x.value) same;
              same_confidence = ap (λ x. x.confidence) same;
            },
            k,
          )

  on_search :
      (top_k : ℕ) (v : Vector) (w : World col.Store)
      (r : Result Exception (List (ScoredFact scores.Score)))
      → col.search v top_k (user_is user_id ∷ []) true w.facts ≡ r
      → Retrieved top_k w
          ((do hits ← call scores col embed r; pure (to_facts scores col embed hits)) w)
  unfolding Retrieved
  on_search top_k v w (ok hits) e =
      let few : length hits ≤ top_k =
        col.search-limit v top_k (user_is user_id ∷ []) true w.facts hits e in
      let found =
        to_facts-IsOwned w.facts hits
          (col.search-stored v top_k (user_is user_id ∷ []) true w.facts hits e) in
      (refl, found, omega (arith, length-to_facts hits))
  on_search top_k v w (err x) e = refl

  on_vectors :
      (top_k : ℕ) (w : World col.Store) (r : Result Exception (List Vector))
      → Retrieved top_k w (
          (do
            vectors ← call scores col embed r
            v ← call scores col embed (the_one vectors)
            hits ← search scores col embed v top_k (user_is user_id ∷ []) true
            pure (to_facts scores col embed hits))
            w)
  unfolding Retrieved
  on_vectors top_k w (err x) = refl
  on_vectors top_k w (ok []) = refl
  on_vectors top_k w (ok (v ∷ [])) = on_search top_k v w _ refl
  on_vectors top_k w (ok (v ∷ u ∷ us)) = refl

  -- A retrieval changes nothing. If it returns, each of its facts is that of a stored point of the
  -- user, with the key, the value and the confidence of the point, and there are at most `top_k`.
  pub retrieve_user_facts-Retrieved :
      (query : Text) (top_k : ℕ) (w : World col.Store)
      → Retrieved top_k w (retrieve_user_facts scores col embed user_id query top_k w)
  unfolding retrieve_user_facts
  retrieve_user_facts-Retrieved query top_k w = on_vectors top_k w (embed (query ∷ []))
