-- ===== src/Retrieval/Search.antt =====
-- src/retrieval/search.py: the search of a tenant's documents. Qdrant is a parameter: it returns
-- stored points that satisfy every condition of the filter, at most `limit` of them.
pub mod Isolation
use legal_viet_namese.Base.{
  ℕ, ◌≤◌, ◌≡◌, Bool, true, false, ◌&&◌, List, [], ◌∷◌, ◌++◌, Option, none, some, Text, text_eq, All,
  length, ◌==◌, is_empty, Result, ok, err, if◌then◌else◌, arith, &&-eq-true, ◌⊎◌, inl, inr,
}
use legal_viet_namese.Db.Models.{Uuid}
use legal_viet_namese.Retrieval.Scores.{Scores}

-- the payload of a document point, as the indexer writes it
pub record Payload : Type 0 where
  pub tenant_id : Uuid
  pub user_id : Uuid
  pub doc_id : Uuid
  pub doc_title : Text
  pub chunk_index : ℕ
  pub heading_path : Option Text
  pub page_from : Option ℕ
  pub page_to : Option ℕ
  pub text : Text
  pub n_tokens : ℕ

-- the conditions of a filter
pub data FieldCondition : Type 0 where
  tenant_is : Uuid → FieldCondition
  user_is : Uuid → FieldCondition
  doc_in : List Uuid → FieldCondition

abbrev pub member : Uuid → List Uuid → Bool
member u [] = false
member u (v ∷ vs) = if u == v then true else member u vs

abbrev pub satisfies : FieldCondition → Payload → Bool
satisfies (tenant_is t) p = p.tenant_id == t
satisfies (user_is u) p = p.user_id == u
satisfies (doc_in ds) p = member p.doc_id ds

abbrev pub satisfies_all : List FieldCondition → Payload → Bool
satisfies_all [] p = true
satisfies_all (c ∷ cs) p = satisfies c p && satisfies_all cs p

-- a point that the search returns
pub record ScoredPoint (S : Type 0) : Type 0 where
  pub id : Uuid
  pub score : S
  pub payload : Option Payload

pub record SearchHit (S : Type 0) : Type 0 where
  pub point_id : Uuid
  pub score : S
  pub doc_id : Uuid
  pub doc_title : Text
  pub chunk_index : ℕ
  pub heading_path : Option Text
  pub page_from : Option ℕ
  pub page_to : Option ℕ
  pub text : Text

-- `Vector` is an embedding; `stored` says which points the collection holds.
pub record Qdrant (S : Type 0) (Vector : Type 0) : Type 1 where
  pub Store : Type 0
  pub stored : Store → Uuid → Option Payload
  pub search : Vector → ℕ → List FieldCondition → Store → List (ScoredPoint S)
  pub search-stored :
      (v : Vector) (limit : ℕ) (must : List FieldCondition) (s : Store)
      → All
          (λ h.
            (p : Payload)
            → h.payload ≡ some p
            → (stored s h.id ≡ some p) × (satisfies_all must p ≡ true))
          (search v limit must s)
  pub search-limit :
      (v : Vector) (limit : ℕ) (must : List FieldCondition) (s : Store)
      → length (search v limit must s) ≤ limit

abbrev pub user_conditions : Option Uuid → List FieldCondition
user_conditions none = []
user_conditions (some u) = user_is u ∷ []

-- `if doc_ids:`: an empty list adds no condition
abbrev pub doc_conditions : Option (List Uuid) → List FieldCondition
doc_conditions none = []
doc_conditions (some []) = []
doc_conditions (some (d ∷ ds)) = doc_in (d ∷ ds) ∷ []

abbrev pub conditions : Uuid → Option Uuid → Option (List Uuid) → List FieldCondition
conditions tenant_id user_id doc_ids =
    tenant_is tenant_id ∷ (user_conditions user_id ++ doc_conditions doc_ids)

abbrev pub add_hit :
    {S : Type 0} → ScoredPoint S → Option Payload → List (SearchHit S) → List (SearchHit S)
add_hit h none out = out
add_hit h (some p) out =
    record {
      point_id = h.id;
      score = h.score;
      doc_id = p.doc_id;
      doc_title = p.doc_title;
      chunk_index = p.chunk_index;
      heading_path = p.heading_path;
      page_from = p.page_from;
      page_to = p.page_to;
      text = p.text;
    }
    ∷ out

-- the loop over the hits: a point without a payload is passed over
abbrev pub to_hits : {S : Type 0} → List (ScoredPoint S) → List (SearchHit S)
to_hits [] = []
to_hits (h ∷ hs) = add_hit h h.payload (to_hits hs)

module _ {S Vector E : Type 0} (qdrant : Qdrant S Vector) (embed : Text → Result E Vector) where
  -- `embed` is the embedding of the one query
  unfoldable pub vector_search :
      Text
      → Uuid
      → Option Uuid
      → Option (List Uuid)
      → ℕ
      → qdrant.Store
      → Result E (List (SearchHit S))
  vector_search query tenant_id user_id doc_ids top_k s = elim (embed query) [
    | err e ↦ err e
    | ok vector ↦ ok (to_hits (qdrant.search vector top_k (conditions tenant_id user_id doc_ids) s))
  ]

-- The hit is a stored point, its text and document are those of the point, and the point is the
-- tenant's, the user's if one is given, and of one of the documents if some are given.
pub record IsAllowed {S Vector : Type 0} (qdrant : Qdrant S Vector) (tenant_id : Uuid)
    (user_id : Option Uuid) (doc_ids : Option (List Uuid)) (s : qdrant.Store) (h : SearchHit S)
    : Type 0 where
  pub point : Payload
  pub stored : qdrant.stored s h.point_id ≡ some point
  pub same_text : h.text ≡ point.text
  pub same_doc : h.doc_id ≡ point.doc_id
  pub of_tenant : point.tenant_id ≡ tenant_id
  pub of_user : (u : Uuid) → user_id ≡ some u → point.user_id ≡ u
  pub of_docs :
      (d : Uuid) (ds : List Uuid) → doc_ids ≡ some (d ∷ ds) → member point.doc_id (d ∷ ds) ≡ true
