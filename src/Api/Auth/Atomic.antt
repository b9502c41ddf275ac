-- ===== src/Api/Auth/Atomic.antt =====
-- The stored tables behind a handler of src/api/routes/auth.py that raises.
use legal_viet_namese.Base.{◌≡◌, refl, Text, Option, none, some, arith, err}
use legal_viet_namese.Db.Models.{Db, User, Uuid, Moment}
use legal_viet_namese.Db.Session.{Exception, get_session}
use legal_viet_namese.Db.Session.Atomicity.{
  IsQuiet, IsAtomic, atomic_rules, get_session-stored, select-IsQuiet, insert-IsQuiet,
  change-IsQuiet,
}
use legal_viet_namese.Db.Users.{
  get_or_create_tenant, by_email, create, touch_login, save_refresh, get_refresh, revoke_refresh,
}
use legal_viet_namese.Api.Auth.{
  Host, Draws, RegisterRequest, LoginRequest, register, login, refresh_tokens, rotate,
  authenticated, decoded,
}

get_or_create_tenant-IsQuiet :
    (slug name : Text) (id : Uuid) (now : Moment) → IsQuiet (get_or_create_tenant slug name id now)
unfolding get_or_create_tenant
get_or_create_tenant-IsQuiet slug name id now = record { at = λ s. ground arith }

by_email-IsQuiet :
    (lower : Text → Text) (tenant_id : Uuid) (email : Text)
    → IsQuiet (by_email lower tenant_id email)
unfolding by_email
by_email-IsQuiet lower tenant_id email = select-IsQuiet _

create-IsQuiet :
    (lower : Text → Text) (tenant_id : Uuid) (email hash : Text) (name : Option Text) (id : Uuid)
    (now : Moment)
    → IsQuiet (create lower tenant_id email hash name id now)
unfolding create
create-IsQuiet lower tenant_id email hash name id now = insert-IsQuiet _ _ _

touch_login-IsQuiet : (user_id : Uuid) (now : Moment) → IsQuiet (touch_login user_id now)
unfolding touch_login
touch_login-IsQuiet user_id now = change-IsQuiet _

module _ (sha256 : Text → Text) where
  save_refresh-IsQuiet :
      (user_id : Uuid) (token : Text) (expires_at : Moment) (agent ip : Option Text) (id : Uuid)
      (now : Moment)
      → IsQuiet (save_refresh sha256 user_id token expires_at agent ip id now)
  unfolding save_refresh
  save_refresh-IsQuiet user_id token expires_at agent ip id now = insert-IsQuiet _ _ _

  get_refresh-IsQuiet : (token : Text) → IsQuiet (get_refresh sha256 token)
  unfolding get_refresh
  get_refresh-IsQuiet token = select-IsQuiet _

  revoke_refresh-IsQuiet : (token : Text) (now : Moment) → IsQuiet (revoke_refresh sha256 token now)
  unfolding revoke_refresh
  revoke_refresh-IsQuiet token now = change-IsQuiet _

authenticated-IsQuiet :
    (host : Host) (password : Text) (user : Option User)
    → IsQuiet (authenticated host password user)
unfolding authenticated
authenticated-IsQuiet host password none = record { at = λ s. refl }
authenticated-IsQuiet host password (some user) = record { at = λ s. ground arith }

decoded-IsQuiet : (host : Host) (now : Moment) (token : Text) → IsQuiet (decoded host now token)
unfolding decoded
decoded-IsQuiet host now token = record { at = λ s. ground arith }

ruleset quiet_steps = (
  atomic_rules, get_or_create_tenant-IsQuiet, by_email-IsQuiet, create-IsQuiet, touch_login-IsQuiet,
  save_refresh-IsQuiet, get_refresh-IsQuiet, revoke_refresh-IsQuiet, authenticated-IsQuiet,
  decoded-IsQuiet,
)

module _ (host : Host) (draw : Draws) where
  register-IsAtomic : (req : RegisterRequest) → IsAtomic (register host req draw)
  unfolding register
  register-IsAtomic req = search quiet_steps depth 12

  login-IsAtomic :
      (req : LoginRequest) (agent ip : Option Text) → IsAtomic (login host req agent ip draw)
  unfolding login
  login-IsAtomic req agent ip = search quiet_steps depth 16

  refresh_tokens-IsAtomic : (token : Text) → IsAtomic (refresh_tokens host token draw)
  unfolding refresh_tokens rotate
  refresh_tokens-IsAtomic token = search quiet_steps depth 16

  -- A registration that raises leaves the stored tables as they were.
  pub register-stored :
      (req : RegisterRequest) (db : Db) (e : Exception)
      → (get_session (register host req draw) db).0 ≡ err e
      → (get_session (register host req draw) db).1 ≡ db
  register-stored req db e =
      get_session-stored (register host req draw) db e (register-IsAtomic req)

  -- A login that raises leaves the stored tables as they were, so a tenant that it has created on
  -- its way is not kept.
  pub login-stored :
      (req : LoginRequest) (agent ip : Option Text) (db : Db) (e : Exception)
      → (get_session (login host req agent ip draw) db).0 ≡ err e
      → (get_session (login host req agent ip draw) db).1 ≡ db
  login-stored req agent ip db e =
      get_session-stored (login host req agent ip draw) db e (login-IsAtomic req agent ip)

  -- A refresh that raises leaves the stored tables as they were: the token that it was given is
  -- not revoked by a refresh that fails.
  pub refresh_tokens-stored :
      (token : Text) (db : Db) (e : Exception)
      → (get_session (refresh_tokens host token draw) db).0 ≡ err e
      → (get_session (refresh_tokens host token draw) db).1 ≡ db
  refresh_tokens-stored token db e =
      get_session-stored (refresh_tokens host token draw) db e (refresh_tokens-IsAtomic token)
