-- ===== src/Db/Session/Atomicity.antt =====
-- Actions that commit at their end only: what a session of src/core/db.py stores behind them.
use legal_viet_namese.Base.{
  ◌≡◌, refl, ◌∙◌, Bool, arith, Result, ok, err, ◌>>=◌, ◌>>◌, pure, raise, raise_if, continue,
}
use legal_viet_namese.Db.Models.{Db}
use legal_viet_namese.Db.Session.{
  Session, Exception, Action, select, change, insert, commit, get_session,
}

-- the action commits nothing
pub record IsQuiet {A : Type 0} (m : Action A) : Type 0 where
  pub at : (s : Session) → (m s).1.stored ≡ s.stored

-- the action commits nothing if it raises
pub record IsAtomic {A : Type 0} (m : Action A) : Type 0 where
  pub at : (s : Session) (e : Exception) → (m s).0 ≡ err e → (m s).1.stored ≡ s.stored

module _ {A : Type 0} where
  pub select-IsQuiet : (f : Db → A) → IsQuiet (select f)
  select-IsQuiet f = record { at = λ s. refl }

  pub insert-IsQuiet : (row : A) (breaks : Db → Bool) (f : Db → Db) → IsQuiet (insert row breaks f)
  insert-IsQuiet row breaks f = record { at = λ s. ground arith }

  pub pure-IsQuiet : (a : A) → IsQuiet (pure a)
  pure-IsQuiet a = record { at = λ s. refl }

  pub raise-IsQuiet : (e : Exception) → IsQuiet (raise {A = A} e)
  raise-IsQuiet e = record { at = λ s. refl }

  pub quiet-IsAtomic : (m : Action A) → IsQuiet m → IsAtomic m
  quiet-IsAtomic m q = record { at = λ s e h. q.at s }

  -- the commit at the end of a handler
  pub commit-IsAtomic : (a : A) → IsAtomic (commit >> pure a)
  commit-IsAtomic a = record { at = λ s e h. ground arith }

pub change-IsQuiet : (f : Db → Db) → IsQuiet (change f)
change-IsQuiet f = record { at = λ s. refl }

pub raise_if-IsQuiet : (b : Bool) (e : Exception) → IsQuiet (raise_if b e)
raise_if-IsQuiet b e = record { at = λ s. ground arith }

module _ {A B : Type 0} where
  pub bind-IsAtomic :
      (m : Action A) (f : A → Action B)
      → IsQuiet m
      → ((a : A) → IsAtomic (f a))
      → IsAtomic (m >>= f)
  bind-IsAtomic m f q k = record { at = λ s e h. go s e (m s).0 (m s).1 (q.at s) h }
    where
      go :
          (s : Session) (e : Exception) (r : Result Exception A) (s' : Session)
          → s'.stored ≡ s.stored
          → (continue r f s').0 ≡ err e
          → (continue r f s').1.stored ≡ s.stored
      go s e (ok a) s' same h = (k a).at s' e h ∙ same
      go s e (err x) s' same h = same

-- A request that raises leaves the stored tables as they were.
pub get_session-stored :
    {A : Type 0} (m : Action A) (db : Db) (e : Exception)
    → IsAtomic m
    → (get_session m db).0 ≡ err e
    → (get_session m db).1 ≡ db
unfolding get_session
get_session-stored m db e a h = a.at (record { stored = db; work = db }) e h

pub ruleset atomic_rules = (
  select-IsQuiet, insert-IsQuiet, pure-IsQuiet, raise-IsQuiet, quiet-IsAtomic, commit-IsAtomic,
  change-IsQuiet, raise_if-IsQuiet, bind-IsAtomic,
)
