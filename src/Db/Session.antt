-- ===== src/Db/Session.antt =====
-- src/core/db.py: a session works on its own copy of the tables, and `commit` makes it the stored
-- one. An exception that leaves the request or the scope drops what was not committed.
pub mod Atomicity
use legal_viet_namese.Base.{ℕ, ◌≡◌, refl, Bool, String, Text, Result, ok, err, Exec, if◌then◌else◌}
use legal_viet_namese.Db.Models.{Db}

pub data Exception : Type 0 where
  http_exception : ℕ → String → Exception
  integrity_error : Exception
  value_error : Exception
  -- an exception of a service or of a library, with its text
  other : Text → Exception

pub record Session : Type 0 where
  pub stored : Db
  pub work : Db

abbrev pub Action : Type 0 → Type 0
Action A = Exec Session Exception A

-- a query
abbrev pub select : {A : Type 0} → (Db → A) → Action A
select f s = (ok (f s.work), s)

-- an UPDATE, or an attribute that is set and flushed later
abbrev pub change : (Db → Db) → Action (Unit {0})
change f s = (ok tt, record s { work = f s.work })

-- `add` and `flush`: the insertion is refused if it breaks a constraint
abbrev pub insert : {A : Type 0} → A → (Db → Bool) → (Db → Db) → Action A
insert row breaks f s =
    if breaks s.work then (err integrity_error, s) else (ok row, record s { work = f s.work })

abbrev pub commit : Action (Unit {0})
commit s = (ok tt, record s { stored = s.work })

-- What stays stored, and the result, when a request that got its session from `get_session` ends.
unfoldable pub get_session : {A : Type 0} → Action A → Db → Result Exception A × Db
get_session action db = let (r, s) = action (record { stored = db; work = db }) in (r, s.stored)

-- `async with session_scope() as session`: a commit on success, a rollback on an exception
abbrev pub closing : {A : Type 0} → Result Exception A → Session → Result Exception A × Db
closing (ok a) s = (ok a, s.work)
closing (err e) s = (err e, s.stored)

unfoldable pub session_scope : {A : Type 0} → Action A → Db → Result Exception A × Db
session_scope action db = let (r, s) = action (record { stored = db; work = db }) in closing r s
