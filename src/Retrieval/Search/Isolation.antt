-- ===== src/Retrieval/Search/Isolation.antt =====
-- The hits of src/retrieval/search.py, and the points that they come from.
use legal_viet_namese.Base.{
  ℕ, ◌≤◌, ◌≡◌, refl, true, List, [], ◌∷◌, ◌++◌, Option, none, some, Text, All, length, arith,
  &&-eq-true, ==_iff, Result, ok, err, subst, Option-cases, inl, inr, or_else, ◌==◌,
}
use legal_viet_namese.Db.Models.{Uuid}
use legal_viet_namese.Retrieval.Search.{
  Payload, FieldCondition, satisfies_all, member, user_conditions, doc_conditions, conditions,
  ScoredPoint, SearchHit, Qdrant, add_hit, to_hits, vector_search, IsAllowed,
}

satisfies_all-append :
    (cs ds : List FieldCondition) (p : Payload)
    → satisfies_all (cs ++ ds) p ≡ true
    → (satisfies_all cs p ≡ true) × (satisfies_all ds p ≡ true)
satisfies_all-append [] ds p h = (refl, h)
satisfies_all-append (c ∷ cs) ds p h = ground (arith, satisfies_all-append cs ds p)

user_met :
    (user_id : Option Uuid) (p : Payload) (u : Uuid)
    → satisfies_all (user_conditions user_id) p ≡ true
    → user_id ≡ some u
    → p.user_id ≡ u
user_met none p u h e = cc
user_met (some v) p u h e = ground arith

docs_met :
    (doc_ids : Option (List Uuid)) (p : Payload) (d : Uuid) (ds : List Uuid)
    → satisfies_all (doc_conditions doc_ids) p ≡ true
    → doc_ids ≡ some (d ∷ ds)
    → member p.doc_id (d ∷ ds) ≡ true
docs_met none p d ds h e = cc
docs_met (some []) p d ds h e = cc
docs_met (some (x ∷ xs)) p d ds h e =
    subst (λ o. member p.doc_id (or_else o []) ≡ true) e
      (&&-eq-true (member p.doc_id (x ∷ xs)) true h).0

module _ {S Vector E : Type 0} (qdrant : Qdrant S Vector) (embed : Text → Result E Vector)
    (tenant_id : Uuid) (user_id : Option Uuid) (doc_ids : Option (List Uuid))
    (s : qdrant.Store) where
  abbrev Allowed : SearchHit S → Type 0
  Allowed = IsAllowed qdrant tenant_id user_id doc_ids s

  abbrev Found : ScoredPoint S → Type 0
  Found h =
      (p : Payload)
      → h.payload ≡ some p
      → (qdrant.stored s h.id ≡ some p)
        × (satisfies_all (conditions tenant_id user_id doc_ids) p ≡ true)

  add_hit-Allowed :
      (h : ScoredPoint S) (payload : Option Payload) (out : List (SearchHit S))
      → h.payload ≡ payload
      → Found h
      → All Allowed out
      → All Allowed (add_hit h payload out)
  add_hit-Allowed h none out e f a = a
  add_hit-Allowed h (some p) out e f a =
      let (there, met) = f p e in
      let (owned, rest) = &&-eq-true (p.tenant_id == tenant_id) _ met in
      let (users, docs) =
        satisfies_all-append (user_conditions user_id) (doc_conditions doc_ids) p rest in
      (
        record {
          point = p;
          stored = there;
          same_text = refl;
          same_doc = refl;
          of_tenant = (==_iff p.tenant_id tenant_id).0 owned;
          of_user = λ u. user_met user_id p u users;
          of_docs = λ d ds. docs_met doc_ids p d ds docs;
        },
        a,
      )

  to_hits-Allowed : (hs : List (ScoredPoint S)) → All Found hs → All Allowed (to_hits hs)
  to_hits-Allowed [] f = tt
  to_hits-Allowed (h ∷ hs) f =
      add_hit-Allowed h h.payload (to_hits hs) refl f.0 (to_hits-Allowed hs f.1)

  length-to_hits : (hs : List (ScoredPoint S)) → length (to_hits hs) ≤ length hs
  length-to_hits [] = omega arith
  length-to_hits (h ∷ hs) = elim (Option-cases h.payload) [
    | inl bare ↦ rw bare (omega (arith, length-to_hits hs))
    | inr (p, full) ↦ rw full (omega (arith, length-to_hits hs))
  ]

  -- Every hit of a search that succeeds is a stored point of the tenant, and of the user and the
  -- documents if these are given, with that point's text; there are at most `top_k`.
  pub vector_search-IsAllowed :
      (query : Text) (top_k : ℕ) (hits : List (SearchHit S))
      → vector_search qdrant embed query tenant_id user_id doc_ids top_k s ≡ ok hits
      → All (IsAllowed qdrant tenant_id user_id doc_ids s) hits × (length hits ≤ top_k)
  unfolding vector_search
  vector_search-IsAllowed query top_k hits h = go (embed query) h
    where
      go :
          (r : Result E Vector)
          → (elim r [
            | err e ↦ err e
            | ok vector ↦
                ok (to_hits (qdrant.search vector top_k (conditions tenant_id user_id doc_ids) s))
          ])
            ≡ ok hits
          → All (IsAllowed qdrant tenant_id user_id doc_ids s) hits × (length hits ≤ top_k)
      go (err e) h = cc
      go (ok vector) h =
          subst
            (λ (r : Result E (List (SearchHit S))). elim r [
              | ok hs ↦ All (IsAllowed qdrant tenant_id user_id doc_ids s) hs × (length hs ≤ top_k)
              | err e ↦ Unit {0}
            ])
            h
            (
              to_hits-Allowed _ (qdrant.search-stored vector top_k _ s),
              omega (
                arith,
                length-to_hits
                    (qdrant.search vector top_k (conditions tenant_id user_id doc_ids) s),
                qdrant.search-limit vector top_k (conditions tenant_id user_id doc_ids) s,
              ),
            )
