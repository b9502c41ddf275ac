-- ===== src/Worker/Memory/Extraction.antt =====
-- What the task of src/worker/tasks/memory.py saves, and for whom.
use legal_viet_namese.Base.{
  ℕ, suc, ◌+◌, ◌*◌, ◌≡◌, refl, ap, ◌∙◌, Bool, true, false, inl, inr, List, [], ◌∷◌, find?, Option,
  none, some, take, is_empty, Text, Result, ok, err, ◌>>=◌, pure, if◌then◌else◌, continue, ◌==◌,
  arith,
}
use legal_viet_namese.Db.Models.{Db, UserFact, Message, Conversation, Uuid}
use legal_viet_namese.Db.Session.{Exception, session_scope}
use legal_viet_namese.Db.Conversations.{recent_messages}
use legal_viet_namese.Retrieval.Scores.{Scores}
use legal_viet_namese.Memory.LongTerm.{FactCollection, World, in_session}
use legal_viet_namese.Memory.LongTerm.Saving.{Saved, IsWritten, row_of, save_fact-Saved}
use legal_viet_namese.Worker.Memory.{
  Extractor, Item, no_dict, entry, Conversing, conversing, of_owner, stripped, confidence_of,
  fact_of, facts_of, save_entry, save_item, save_items, extract, extract_facts, with_messages,
  read_conversation, or_braces, transcript,
}
use legal_viet_namese.Worker.Memory.Rows.{IsFactOf, Adds, no_rows, Adds-refl, Adds-trans}

-- Rows with the property were added, and a success counts them on top of `saved`.
pub Counts :
    {Store : Type 0} → (UserFact → Type 0) → ℕ → Db → Result Exception ℕ × World Store → Type 0
Counts P saved db (ok k, w) = (n : ℕ) × Adds P n db w.db × (k ≡ saved + n)
Counts P saved db (err e, w) = (n : ℕ) × Adds P n db w.db

module _ (scores : Scores) {Vector : Type 0} (col : FactCollection scores.Score Vector)
    (embed : List Text → Result Exception (List Vector)) (threshold : scores.Score)
    (x : Extractor) where
  module _ (c : Conversing) where
    abbrev P : UserFact → Type 0
    P = IsFactOf c.user_id c.tenant_id

    take-some : (t : Text) → is_empty t ≡ false → is_empty (take 128 t) ≡ false
    take-some [] e = e
    take-some (d ∷ ds) e = refl

    module _ (i : ℕ) (key value : Text) (confidence saved : ℕ) (w : World col.Store)
        (full_key : is_empty key ≡ false) (full_value : is_empty value ≡ false) where
      written :
          (r : Result Exception (Unit {0})) (w' : World col.Store)
          → IsWritten scores col embed threshold
              (fact_of c key value confidence)
              (x.draw (2 * i))
              (x.draw (suc (2 * i)))
              x.now
              r
              w
              w'
          → Adds P 1 w.db w'.db
      written r w' s = record {
        rows =
            row_of (fact_of c key value confidence) (x.draw (2 * i)) (x.draw (suc (2 * i))) x.now
            ∷ [];
        good = (
          record {
            of_user = refl;
            of_tenant = refl;
            some_key = take-some key full_key;
            some_value = full_value;
          },
          tt,
        );
        many = refl;
        same = s.row;
      }

      unchanged : (w' : World col.Store) → w' ≡ w → Adds P 0 w.db w'.db
      unchanged w' same = record {
        rows = [];
        good = tt;
        many = refl;
        same = ap (λ v. v.db) same ∙ no_rows w.db;
      }

      counted :
          (y : Result Exception Bool × World col.Store)
          → Saved scores col embed threshold
              (fact_of c key value confidence)
              (x.draw (2 * i))
              (x.draw (suc (2 * i)))
              x.now
              w
              y
          → Counts P saved w.db
              (continue y.0 (λ inserted. pure (if inserted then suc saved else saved)) y.1)
      unfolding Saved Counts
      counted (ok true, w') s = (1, written _ w' s, omega arith)
      counted (ok false, w') s = (0, unchanged w' s.0, omega arith)
      counted (err e, w') (inl same) = (0, unchanged w' same)
      counted (err e, w') (inr s) = (1, written _ w' s)

    save_entry-Counts :
        (i : ℕ) (key value : Text) (confidence saved : ℕ) (w : World col.Store)
        → Counts P saved w.db
            (save_entry scores col embed threshold x c i key value confidence saved w)
    unfolding Counts
    save_entry-Counts i [] value confidence saved w = (0, Adds-refl P w.db, omega arith)
    save_entry-Counts i (k ∷ ks) [] confidence saved w = (0, Adds-refl P w.db, omega arith)
    save_entry-Counts i (k ∷ ks) (v ∷ vs) confidence saved w =
        counted i (k ∷ ks) (v ∷ vs) confidence saved w refl refl _
          (save_fact-Saved scores col embed threshold _ _ _ x.now w)

    -- the reading of the three values may raise
    read_entry-Counts :
        (i saved : ℕ) (w : World col.Store) (key value : Result Exception Text)
        (confidence : Result Exception ℕ)
        → Counts P saved w.db (
            continue key
              (λ k w.
                continue value
                  (λ v w.
                    continue confidence
                      (λ p. save_entry scores col embed threshold x c i k v p saved)
                      w)
                  w)
              w)
    unfolding Counts
    read_entry-Counts i saved w (err e) value confidence = (0, Adds-refl P w.db)
    read_entry-Counts i saved w (ok k) (err e) confidence = (0, Adds-refl P w.db)
    read_entry-Counts i saved w (ok k) (ok v) (err e) = (0, Adds-refl P w.db)
    read_entry-Counts i saved w (ok k) (ok v) (ok p) = save_entry-Counts i k v p saved w

    save_item-Counts :
        (i : ℕ) (f : Item) (saved : ℕ) (w : World col.Store)
        → Counts P saved w.db (save_item scores col embed threshold x c i f saved w)
    unfolding Counts
    save_item-Counts i (no_dict e) saved w = (0, Adds-refl P w.db)
    save_item-Counts i (entry k v p) saved w =
        read_entry-Counts i saved w (stripped x k) (stripped x v) (confidence_of x p)

    Counts-trans :
        (saved m mid : ℕ) (a b : Db) (y : Result Exception ℕ × World col.Store)
        → Adds P m a b
        → mid ≡ saved + m
        → Counts P mid b y
        → Counts P saved a y
    unfolding Counts
    Counts-trans saved m mid a b (ok k, w) h e (n, more, total) =
        (m + n, Adds-trans P m n a b w.db h more, omega (arith, e, total))
    Counts-trans saved m mid a b (err e', w) h e (n, more) =
        (m + n, Adds-trans P m n a b w.db h more)

    save_items-Counts :
        (i : ℕ) (fs : List Item) (saved : ℕ) (w : World col.Store)
        → Counts P saved w.db (save_items scores col embed threshold x c i fs saved w)
    unfolding save_items Counts
    save_items-Counts i [] saved w = (0, Adds-refl P w.db, omega arith)
    save_items-Counts i (f ∷ fs) saved w =
        go _ (save_item-Counts i f saved w) (λ k v. save_items-Counts (suc i) fs k v)
      where
        go :
            (y : Result Exception ℕ × World col.Store)
            → Counts P saved w.db y
            → ((k : ℕ) (v : World col.Store)
                → Counts P k v.db (save_items scores col embed threshold x c (suc i) fs k v))
            → Counts P saved w.db
                (continue y.0 (save_items scores col embed threshold x c (suc i) fs) y.1)
        go (ok k, v) (m, h, e) rest = Counts-trans saved m k w.db v.db _ h e (rest k v)
        go (err e, v) h rest = h

    extract-Counts :
        (w : World col.Store) → Counts P 0 w.db (extract scores col embed threshold x (some c) w)
    unfolding Counts
    extract-Counts w = asked (x.complete x.system_prompt (take 8000 (transcript c.msgs)))
      where
        read :
            (facts : Result Exception (List Item))
            → Counts P 0 w.db
                (continue facts (λ fs. save_items scores col embed threshold x c 0 fs 0) w)
        read (ok fs) = save_items-Counts 0 fs 0 w
        read (err e) = (0, Adds-refl P w.db)

        asked :
            (content : Result Exception (Option Text))
            → Counts P 0 w.db (
                continue content
                  (λ t w.
                    continue
                      (facts_of (x.read (or_braces t)))
                      (λ fs. save_items scores col embed threshold x c 0 fs 0)
                      w)
                  w)
        asked (ok t) = read (facts_of (x.read (or_braces t)))
        asked (err e) = (0, Adds-refl P w.db)

  abbrev Kept : Option Conversation → Db → Result Exception ℕ × World col.Store → Type 0
  Kept none db y = (y.0 ≡ ok 0) × (y.1.db ≡ db)
  Kept (some c) db y = Counts (IsFactOf c.user_id c.tenant_id) 0 db y

  -- Nothing happens without a row of the conversation; otherwise rows of its owner are added, and
  -- a success counts them.
  pub Extracted : Uuid → Db → Result Exception ℕ × World col.Store → Type 0
  Extracted conv_id db y = Kept (find? (λ c. c.id == conv_id) db.conversations) db y

  nothing-Kept : (o : Option Conversation) (w : World col.Store) → Kept o w.db (ok 0, w)
  unfolding Counts
  nothing-Kept none w = (refl, refl)
  nothing-Kept (some c) w = (0, Adds-refl _ w.db, omega arith)

  started :
      (conv_id : Uuid) (msgs : List Message) (w : World col.Store)
      → Extracted conv_id w.db (
          (do
            found ← in_session scores col embed (with_messages conv_id msgs)
            extract scores col embed threshold x found)
            w)
  unfolding Extracted session_scope
  started conv_id [] w = nothing-Kept _ w
  started conv_id (m ∷ ms) w = go (find? (λ c. c.id == conv_id) w.db.conversations)
    where
      go :
          (o : Option Conversation)
          → Kept o w.db (extract scores col embed threshold x (conversing (m ∷ ms) o) w)
      go none = (refl, refl)
      go (some c) = extract-Counts (of_owner (m ∷ ms) c) w

  -- The task changes the tables only by rows of facts behind the old ones, with the user and the
  -- tenant of the conversation and a key and a value that are not empty. The number it returns is
  -- the number of these rows. Without a row of the conversation it returns 0 and changes no table.
  pub extract_facts-Extracted :
      (conv_id : Uuid) (w : World col.Store)
      → Extracted conv_id w.db (extract_facts scores col embed threshold x conv_id w)
  unfolding extract_facts read_conversation recent_messages session_scope
  extract_facts-Extracted conv_id w = started conv_id _ w
