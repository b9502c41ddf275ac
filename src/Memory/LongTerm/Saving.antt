-- ===== src/Memory/LongTerm/Saving.antt =====
-- What `save_fact` of src/memory/long_term.py leaves, on every branch.
use legal_viet_namese.Base.{
  ◌&&◌, ◌==◌, &&-eq-true, ==_iff, text_eq, text_eq_sound, ◌≡◌, refl, Bool, true, false, ◌⊎◌, inl,
  inr, List, [], ◌∷◌, ◌++◌, Mem, take, some, Text, Result, ok, err, Bool-cases, ◌>>=◌, ◌>>◌, pure,
}
use legal_viet_namese.Db.Models.{Db, UserFact, Uuid, Moment, stamped}
use legal_viet_namese.Db.Session.{Exception, session_scope}
use legal_viet_namese.Db.Conversations.{add_fact}
use legal_viet_namese.Retrieval.Scores.{Scores}
use legal_viet_namese.Memory.LongTerm.{
  World, NewFact, FactPayload, FactPoint, FactCollection, ScoredFact, fits_all, the_one, fact_text,
  same_fact, is_dup, point_of, unless_dup, save_fact, call, search,
}

-- the row of a fact
abbrev pub row_of : NewFact → Uuid → Uuid → Moment → UserFact
row_of f point_id row_id now = record {
  id = row_id;
  user_id = f.user_id;
  tenant_id = f.tenant_id;
  key = take 128 f.key;
  value = f.value;
  confidence = f.confidence;
  source_message_ids = f.source_message_ids;
  qdrant_point_id = some point_id;
  times = stamped now;
}

abbrev pub with_row : NewFact → Uuid → Uuid → Moment → Db → Db
with_row f point_id row_id now db = record db {
  user_facts = db.user_facts ++ (row_of f point_id row_id now ∷ []);
}

module _ (scores : Scores) {Vector : Type 0} (col : FactCollection scores.Score Vector)
    (embed : List Text → Result Exception (List Vector)) (threshold : scores.Score) (f : NewFact)
    (point_id row_id : Uuid) (now : Moment) where
  -- a point of the same user and key is at least as near as the threshold
  pub record IsKnown (s : col.Store) : Type 0 where
    pub point : FactPoint Vector
    pub stored : Mem point (col.points s)
    pub same_user : point.payload.user_id ≡ f.user_id
    pub same_key : point.payload.key ≡ f.key
    pub hit : ScoredFact scores.Score
    pub its_id : point.id ≡ hit.id
    pub near : scores.below hit.score threshold ≡ false

  -- the row is committed, and the point of the fact upserted with this result
  pub record IsWritten (r : Result Exception (Unit {0})) (w w' : World col.Store) : Type 0 where
    pub vector : Vector
    pub embedded : embed (fact_text f ∷ []) ≡ ok (vector ∷ [])
    pub row : w'.db ≡ with_row f point_id row_id now w.db
    pub point :
        col.upsert
          (record {
            id = point_id;
            vector = vector;
            payload = record {
              user_id = f.user_id;
              tenant_id = f.tenant_id;
              key = f.key;
              value = f.value;
              confidence = f.confidence;
            };
          })
          w.facts
        ≡ (r, w'.facts)

  -- A success either wrote both, or found the fact known and wrote nothing; an exception leaves
  -- everything as it was, or a row whose point was refused.
  unfoldable pub Saved : World col.Store → Result Exception Bool × World col.Store → Type 0
  Saved w (ok true, w') = IsWritten (ok tt) w w'
  Saved w (ok false, w') = (w' ≡ w) × IsKnown w.facts
  Saved w (err e, w') = (w' ≡ w) ⊎ IsWritten (err e) w w'

  fits-same :
      (p : FactPayload)
      → fits_all (same_fact f) p ≡ true
      → (p.user_id ≡ f.user_id) × (p.key ≡ f.key)
  fits-same p h =
      let (u, rest) = &&-eq-true (p.user_id == f.user_id) (text_eq p.key f.key && true) h in
      (
        (==_iff p.user_id f.user_id).0 u,
        text_eq_sound p.key f.key (&&-eq-true (text_eq p.key f.key) true rest).0,
      )

  on_upsert :
      (v : Vector) (w : World col.Store) (x : Result Exception (Unit {0}) × col.Store)
      → embed (fact_text f ∷ []) ≡ ok (v ∷ [])
      → col.upsert (point_of scores col embed f point_id v) w.facts ≡ x
      → Saved w (
          (call scores col embed x.0 >> pure true)
            (record { db = with_row f point_id row_id now w.db; facts = x.1 }))
  unfolding Saved
  on_upsert v w (ok tt, facts) embedded e = record {
    vector = v;
    embedded = embedded;
    row = refl;
    point = e;
  }
  on_upsert v w (err x, facts) embedded e =
      inr (record { vector = v; embedded = embedded; row = refl; point = e })

  on_hits :
      (v : Vector) (w : World col.Store) (hits : List (ScoredFact scores.Score))
      → embed (fact_text f ∷ []) ≡ ok (v ∷ [])
      → col.search v 1 (same_fact f) false w.facts ≡ ok hits
      → Saved w (
          unless_dup scores col embed f point_id row_id now v
            (is_dup scores col embed threshold hits)
            w)
  unfolding Saved session_scope add_fact
  on_hits v w [] embedded e = on_upsert v w _ embedded refl
  on_hits v w (h ∷ hs) embedded e = elim (Bool-cases (scores.below h.score threshold)) [
    | inl far ↦ rw far (on_upsert v w _ embedded refl)
    | inr near ↦
        let x = (col.search-stored v 1 (same_fact f) false w.facts (h ∷ hs) e).0 in
        rw near (
          refl,
          record {
            point = x.0;
            stored = x.1;
            same_user = (fits-same x.0.payload x.3).0;
            same_key = (fits-same x.0.payload x.3).1;
            hit = h;
            its_id = x.2;
            near = near;
          },
        )
  ]

  on_search :
      (v : Vector) (w : World col.Store) (r : Result Exception (List (ScoredFact scores.Score)))
      → embed (fact_text f ∷ []) ≡ ok (v ∷ [])
      → col.search v 1 (same_fact f) false w.facts ≡ r
      → Saved w (
          (call scores col embed r >>= λ hits.
          unless_dup scores col embed f point_id row_id now v
            (is_dup scores col embed threshold hits))
            w)
  unfolding Saved
  on_search v w (ok hits) embedded e = on_hits v w hits embedded e
  on_search v w (err x) embedded e = inl refl

  on_vectors :
      (w : World col.Store) (r : Result Exception (List Vector))
      → embed (fact_text f ∷ []) ≡ r
      → Saved w (
          (do
            vectors ← call scores col embed r
            v ← call scores col embed (the_one vectors)
            hits ← search scores col embed v 1 (same_fact f) false
            unless_dup scores col embed f point_id row_id now v
                (is_dup scores col embed threshold hits))
            w)
  unfolding Saved
  on_vectors w (err x) e = inl refl
  on_vectors w (ok []) e = inl refl
  on_vectors w (ok (v ∷ [])) e = on_search v w _ e refl
  on_vectors w (ok (v ∷ u ∷ us)) e = inl refl

  pub save_fact-Saved :
      (w : World col.Store) → Saved w (save_fact scores col embed threshold f point_id row_id now w)
  unfolding save_fact
  save_fact-Saved w = on_vectors w _ refl
