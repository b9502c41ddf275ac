-- ===== src/Worker/Process/Steps.antt =====
-- Reasoning about jobs: what a job keeps whatever it returns, and what holds when it succeeds.
use legal_viet_namese.Base.{
  ◌≡◌, refl, Result, ok, err, Exec, ◌>>=◌, pure, raise_if, continue, Bool, true, false, Text,
  Option, ℕ, ◌⊎◌,
}
use legal_viet_namese.Db.Models.{Db, Status, Uuid}
use legal_viet_namese.Db.Session.{Action, Exception, session_scope}
use legal_viet_namese.Worker.Process.{
  World, Services, Progress, in_session, settle, in_collection, call, note, publish,
}
use legal_viet_namese.Ingestion.Indexer.{Collection}

abbrev pub Step : Type 0 → Type 0 → Type 0
Step Store A = World Store → Result Exception A × World Store

-- A state of the tables that survives the job's steps.
module _ {Store : Type 0} (I : Db → Type 0) where
  pub record Keeps {A : Type 0} (m : Step Store A) : Type 0 where
    pub at : (w : World Store) → I w.db → I (m w).1.db

  -- P holds of the result and the tables when the job succeeds
  abbrev pub After : {A : Type 0} → (A → Db → Type 0) → Result Exception A × World Store → Type 0
  After P (ok a, w) = P a w.db
  After P (err e, w) = Unit {0}

  pub record Ends {A : Type 0} (P : A → Db → Type 0) (m : Step Store A) : Type 0 where
    pub at : (w : World Store) → I w.db → After P (m w)

  module _ {A B : Type 0} where
    pub bind-Keeps :
        (m : Step Store A) (f : A → Step Store B)
        → Keeps m
        → ((a : A) → Keeps (f a))
        → Keeps (m >>= f)
    bind-Keeps m f k g = record { at = λ w i. go (m w).0 (m w).1 (k.at w i) }
      where
        go : (r : Result Exception A) (w : World Store) → I w.db → I (continue r f w).1.db
        go (ok a) w i = (g a).at w i
        go (err e) w i = i

    pub bind-Ends :
        (P : B → Db → Type 0) (m : Step Store A) (f : A → Step Store B)
        → Keeps m
        → ((a : A) → Ends P (f a))
        → Ends P (m >>= f)
    bind-Ends P m f k g = record { at = λ w i. go (m w).0 (m w).1 (k.at w i) }
      where
        go : (r : Result Exception A) (w : World Store) → I w.db → After P (continue r f w)
        go (ok a) w i = (g a).at w i
        go (err e) w i = tt

    -- the same, where the rest may rely on what a success of `m` returns
    pub bind-Knows :
        (P : B → Db → Type 0) (Q : A → Type 0) (m : Step Store A) (f : A → Step Store B)
        → Keeps m
        → ((w : World Store) (a : A) → (m w).0 ≡ ok a → Q a)
        → ((a : A) → Q a → Ends P (f a))
        → Ends P (m >>= f)
    bind-Knows P Q m f k q g = record { at = λ w i. go w (m w).0 (m w).1 refl (k.at w i) }
      where
        go :
            (w : World Store) (r : Result Exception A) (w' : World Store)
            → (m w).0 ≡ r
            → I w'.db
            → After P (continue r f w')
        go w (ok a) w' e i = (g a (q w a e)).at w' i
        go w (err x) w' e i = tt

  pub pure-Keeps : {A : Type 0} (a : A) → Keeps (pure a)
  pure-Keeps a = record { at = λ w i. i }

  pub raise_if-Keeps : (b : Bool) (e : Exception) → Keeps (raise_if b e)
  raise_if-Keeps true e = record { at = λ w i. i }
  raise_if-Keeps false e = record { at = λ w i. i }

module _ {Vector : Type 0} (col : Collection Vector) (sv : Services Vector) (I : Db → Type 0) where
  pub call-Keeps : {A : Type 0} (r : Result Exception A) → Keeps I (call col sv r)
  call-Keeps r = record { at = λ w i. i }

  pub in_collection-Keeps :
      {A : Type 0} (m : Exec col.Store Exception A) → Keeps I (in_collection col sv m)
  in_collection-Keeps m = record { at = λ w i. i }

  note-db :
      (p : Progress) (r : Result Exception (Unit {0})) (w : World col.Store)
      → (note col sv p r w).1.db ≡ w.db
  note-db p (ok sent) w = refl
  note-db p (err e) w = refl

  -- The channel is not in the tables.
  pub publish-db :
      (doc_id : Uuid) (status : Status) (n : Option ℕ) (e : Option Text) (w : World col.Store)
      → (publish col sv doc_id status n e w).1.db ≡ w.db
  publish-db doc_id status n e w = note-db _ _ w

  pub publish-Keeps :
      (doc_id : Uuid) (status : Status) (n : Option ℕ) (e : Option Text)
      → Keeps I (publish col sv doc_id status n e)
  publish-Keeps doc_id status n e = record { at = λ w i. rw (publish-db doc_id status n e w) i }

  -- A session keeps what its action keeps in its own copy: it stores the copy or nothing.
  pub in_session-Keeps :
      {A : Type 0} (m : Action A)
      → ((db : Db) → I db → I (session_scope m db).1)
      → Keeps I (in_session col sv m)
  in_session-Keeps {A} m k = record {
    at = λ w i. go (sv.database w.db (session_scope m w.db).1) w i;
  }
    where
      go :
          (r : Result Exception (Unit {0})) (w : World col.Store)
          → I w.db
          → I (settle col sv r (session_scope m w.db) w).1.db
      go (ok u) w i = k w.db i
      go (err e) w i = i

-- What holds of the rest of a job behind a session that got through, and of the exception of the
-- database, holds behind the session.
pub session-bind :
    {Vector : Type 0} (col : Collection Vector) (sv : Services Vector) {A B : Type 0}
    (Q : Result Exception B × World col.Store → Type 0) (m : Action A) (f : A → Step col.Store B)
    (w : World col.Store)
    → ((e : Exception) → sv.database w.db (session_scope m w.db).1 ≡ err e → Q (err e, w))
    → Q (continue (session_scope m w.db).0 f (record w { db = (session_scope m w.db).1 }))
    → Q ((in_session col sv m >>= f) w)
session-bind col sv {A} {B} Q m f w failed passed =
    go (sv.database w.db (session_scope m w.db).1) failed
  where
    go :
        (r : Result Exception (Unit {0}))
        → ((e : Exception) → r ≡ err e → Q (err e, w))
        → Q ((settle col sv r (session_scope m w.db) >>= f) w)
    go (ok u) h = passed
    go (err e) h = h e refl

-- The step succeeds from tables with I, leaves tables with J, and returns a result with Q.
module _ {Store : Type 0} where
  abbrev pub Won :
      {A : Type 0} → (Db → Type 0) → (A → Type 0) → Result Exception A × World Store → Type 0
  Won J Q (ok a, w) = J w.db × Q a
  Won J Q (err e, w) = ⊥

  pub record Wins {A : Type 0} (I J : Db → Type 0) (Q : A → Type 0) (m : Step Store A)
      : Type 0 where
    pub at : (w : World Store) → I w.db → Won J Q (m w)

  pub Wins-bind :
      {A B : Type 0} (I J K : Db → Type 0) (Q : A → Type 0) (R : B → Type 0) (m : Step Store A)
      (f : A → Step Store B)
      → Wins I J Q m
      → ((a : A) → Q a → Wins J K R (f a))
      → Wins I K R (m >>= f)
  Wins-bind {A} I J K Q R m f h k = record { at = λ w i. go (m w) (h.at w i) }
    where
      go : (x : Result Exception A × World Store) → Won J Q x → Won K R (continue x.0 f x.1)
      go (ok a, w) (j, q) = (k a q).at w j
      go (err e, w) x = absurd x

-- an exception that `except Exception` does not see, or one of the database
abbrev pub Interrupts : {Vector : Type 0} → Services Vector → Exception → Type 0
Interrupts sv e =
    (sv.is_cancelled e ≡ true) ⊎ ((before : Db) × (after : Db) × (sv.database before after ≡ err e))

abbrev pub Any : {A : Type 0} → A → Type 0
Any a = Unit {0}
