-- ===== src/Memory/LongTerm.antt =====
-- src/memory/long_term.py: the facts of a user, as rows and as points of the collection `memory`.
-- The embeddings and Qdrant are parameters, and so are the UUIDs and the clock.
pub mod Saving
pub mod Retrieving
use legal_viet_namese.Base.{
  ◌>>=◌, ◌>>◌, ℕ, ◌≤◌, ◌≡◌, Bool, true, false, not, ◌&&◌, ◌==◌, List, [], ◌∷◌, ◌++◌, Mem, Option,
  none, some, Text, chars, text_eq, All, length, Result, ok, err, Exec, pure,
}
use legal_viet_namese.Db.Models.{Db, Uuid, Moment}
use legal_viet_namese.Db.Session.{Action, Exception, value_error, session_scope}
use legal_viet_namese.Db.Conversations.{add_fact}
use legal_viet_namese.Retrieval.Scores.{Scores}

-- the payload of a fact's point
pub record FactPayload : Type 0 where
  pub user_id : Uuid
  pub tenant_id : Uuid
  pub key : Text
  pub value : Text
  pub confidence : ℕ

pub record FactPoint (Vector : Type 0) : Type 0 where
  pub id : Uuid
  pub vector : Vector
  pub payload : FactPayload

-- the conditions of a filter
pub data FactCondition : Type 0 where
  user_is : Uuid → FactCondition
  key_is : Text → FactCondition

abbrev pub fits : FactCondition → FactPayload → Bool
fits (user_is u) p = p.user_id == u
fits (key_is k) p = text_eq p.key k

abbrev pub fits_all : List FactCondition → FactPayload → Bool
fits_all [] p = true
fits_all (c ∷ cs) p = fits c p && fits_all cs p

-- a hit of the search, whose payload may be left out
pub record ScoredFact (S : Type 0) : Type 0 where
  pub id : Uuid
  pub score : S
  pub payload : Option FactPayload

-- The Qdrant collection of the facts. A search returns points of the collection that satisfy every
-- condition of the filter, at most `limit` of them; an upsert may raise, and then leaves the points
-- in a state of Qdrant's own.
pub record FactCollection (S Vector : Type 0) : Type 1 where
  pub Store : Type 0
  pub points : Store → List (FactPoint Vector)
  pub upsert : FactPoint Vector → Exec Store Exception (Unit {0})
  pub search :
      Vector → ℕ → List FactCondition → Bool → Store → Result Exception (List (ScoredFact S))
  pub search-stored :
      (v : Vector) (limit : ℕ) (must : List FactCondition) (with_payload : Bool) (s : Store)
      (hits : List (ScoredFact S))
      → search v limit must with_payload s ≡ ok hits
      → All
          (λ h.
            (q : FactPoint Vector) × Mem q (points s)
            × (q.id ≡ h.id)
            × (fits_all must q.payload ≡ true)
            × ((p : FactPayload) → h.payload ≡ some p → p ≡ q.payload))
          hits
  pub search-limit :
      (v : Vector) (limit : ℕ) (must : List FactCondition) (with_payload : Bool) (s : Store)
      (hits : List (ScoredFact S))
      → search v limit must with_payload s ≡ ok hits
      → length hits ≤ limit

-- the arguments of `save_fact`
pub record NewFact : Type 0 where
  pub user_id : Uuid
  pub tenant_id : Uuid
  pub key : Text
  pub value : Text
  pub confidence : ℕ
  pub source_message_ids : List Uuid

-- a fact as the agent gets it
pub record RetrievedFact (S : Type 0) : Type 0 where
  pub key : Text
  pub value : Text
  pub confidence : ℕ
  pub score : S

pub record World (Store : Type 0) : Type 0 where
  pub db : Db
  pub facts : Store

-- `(vector,) = vectors`
abbrev pub the_one : {A : Type 0} → List A → Result Exception A
the_one [] = err value_error
the_one (v ∷ []) = ok v
the_one (v ∷ u ∷ us) = err value_error

abbrev pub payload_of : NewFact → FactPayload
payload_of f = record {
  user_id = f.user_id;
  tenant_id = f.tenant_id;
  key = f.key;
  value = f.value;
  confidence = f.confidence;
}

abbrev pub fact_text : NewFact → Text
fact_text f = f.key ++ (chars ": " ++ f.value)

abbrev pub same_fact : NewFact → List FactCondition
same_fact f = user_is f.user_id ∷ key_is f.key ∷ []

abbrev pub insert_row : NewFact → Uuid → Uuid → Moment → Action (Unit {0})
insert_row f point_id row_id now = do
  add_fact f.user_id f.tenant_id f.key f.value f.confidence f.source_message_ids (some point_id)
      row_id now
  pure tt

module _ (scores : Scores) {Vector : Type 0} (col : FactCollection scores.Score Vector)
    (embed : List Text → Result Exception (List Vector)) where
  open scores use {Score, below}

  abbrev pub Task : Type 0 → Type 0
  Task A = Exec (World col.Store) Exception A

  abbrev pub in_session : {A : Type 0} → Action A → Task A
  in_session action w = let (r, db) = session_scope action w.db in (r, record w { db = db })

  abbrev pub in_facts : {A : Type 0} → Exec col.Store Exception A → Task A
  in_facts action w = let (r, facts) = action w.facts in (r, record w { facts = facts })

  abbrev pub call : {A : Type 0} → Result Exception A → Task A
  call r w = (r, w)

  abbrev pub search : Vector → ℕ → List FactCondition → Bool → Task (List (ScoredFact Score))
  search v limit must with_payload w = (col.search v limit must with_payload w.facts, w)

  -- `hits and hits[0].score >= threshold`
  abbrev pub is_dup : Score → List (ScoredFact Score) → Bool
  is_dup threshold [] = false
  is_dup threshold (h ∷ hs) = not (below h.score threshold)

  abbrev pub point_of : NewFact → Uuid → Vector → FactPoint Vector
  point_of f point_id v = record { id = point_id; vector = v; payload = payload_of f }

  abbrev pub unless_dup : NewFact → Uuid → Uuid → Moment → Vector → Bool → Task Bool
  unless_dup f point_id row_id now v true = pure false
  unless_dup f point_id row_id now v false = do
    in_session (insert_row f point_id row_id now)
    in_facts (col.upsert (point_of f point_id v))
    pure true

  -- `threshold` is `_DEDUPE_THRESHOLD`; `point_id` and `row_id` are the UUIDs that are drawn.
  unfoldable pub save_fact : Score → NewFact → Uuid → Uuid → Moment → Task Bool
  save_fact threshold f point_id row_id now = do
    vectors ← call (embed (fact_text f ∷ []))
    v ← call (the_one vectors)
    hits ← search v 1 (same_fact f) false
    unless_dup f point_id row_id now v (is_dup threshold hits)

  abbrev pub add_fact_of :
      ScoredFact Score
      → Option FactPayload
      → List (RetrievedFact Score)
      → List (RetrievedFact Score)
  add_fact_of h none out = out
  add_fact_of h (some p) out =
      record { key = p.key; value = p.value; confidence = p.confidence; score = h.score } ∷ out

  -- a hit without a payload is passed over
  abbrev pub to_facts : List (ScoredFact Score) → List (RetrievedFact Score)
  to_facts [] = []
  to_facts (h ∷ hs) = add_fact_of h h.payload (to_facts hs)

  unfoldable pub retrieve_user_facts : Uuid → Text → ℕ → Task (List (RetrievedFact Score))
  retrieve_user_facts user_id query top_k = do
    vectors ← call (embed (query ∷ []))
    v ← call (the_one vectors)
    hits ← search v top_k (user_is user_id ∷ []) true
    pure (to_facts hits)
