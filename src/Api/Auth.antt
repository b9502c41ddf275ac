-- ===== src/Api/Auth.antt =====
-- src/api/routes/auth.py. A handler takes the moment of the request and the UUIDs that it draws.
pub mod Atomic
pub mod Rotation
pub mod Registration
use legal_viet_namese.Base.{
  ℕ, ◌+◌, ◌*◌, Bool, true, false, ◌||◌, not, List, Option, none, some, Text, is_some, ltb,
  if◌then◌else◌, Result, ok, err, Exec, ◌>>=◌, ◌>>◌, pure, raise, raise_if,
}
use legal_viet_namese.Core.Security.{
  PasswordHasher, Jwt, SecuritySettings, TokenPayload, TokenType, access, refresh, hash_password,
  verify_password, issue_access, issue_refresh, decode_token,
}
use legal_viet_namese.Db.Models.{Uuid, Moment, Tenant, User, RefreshToken}
use legal_viet_namese.Db.Session.{Action, Exception, http_exception, other, commit, get_session}
use legal_viet_namese.Db.Users.{
  get_or_create_tenant, by_email, create, touch_login, save_refresh, get_refresh, revoke_refresh,
}

pub record RegisterRequest : Type 0 where
  pub email : Text
  pub password : Text
  pub display_name : Option Text
  pub tenant_slug : Text

pub record LoginRequest : Type 0 where
  pub email : Text
  pub password : Text
  pub tenant_slug : Text

pub record TokenResponse : Type 0 where
  pub access_token : Text
  pub refresh_token : Text
  pub expires_in : ℕ

pub record UserOut : Type 0 where
  pub id : Uuid
  pub email : Text
  pub display_name : Option Text
  pub tenant_id : Uuid

-- the UUIDs that a handler draws, the salt of a hash, and the time
pub record Draws : Type 0 where
  pub tenant_id : Uuid
  pub user_id : Uuid
  pub row_id : Uuid
  pub access_jti : Uuid
  pub refresh_jti : Uuid
  pub salt : Text
  pub now : Moment

-- what the handlers take from elsewhere
pub record Host : Type 0 where
  pub hasher : PasswordHasher
  pub jwt : Jwt
  pub settings : SecuritySettings
  pub sha256 : Text → Text
  pub lower : Text → Text

module _ (host : Host) where
  open host use {hasher, jwt, settings, sha256, lower}

  unfoldable pub token_pair : Uuid → Uuid → Draws → TokenResponse × Text
  unfolding issue_access issue_refresh
  token_pair user_id tenant_id draw =
      let (access_token, ap) =
        issue_access jwt settings user_id tenant_id draw.access_jti draw.now in
      let (refresh_token, rp) =
        issue_refresh jwt settings user_id tenant_id draw.refresh_jti draw.now in
      (
        record {
          access_token = access_token;
          refresh_token = refresh_token;
          expires_in = settings.jwt_access_ttl_min * 60;
        },
        refresh_token,
      )

  unfoldable pub register : RegisterRequest → Draws → Action UserOut
  register req draw = do
    tenant ← get_or_create_tenant req.tenant_slug req.tenant_slug draw.tenant_id draw.now
    existing ← by_email lower tenant.id req.email
    raise_if (is_some existing) (http_exception 409 "email already registered")
    user ←
        create lower tenant.id req.email (hash_password hasher draw.salt req.password)
          req.display_name draw.user_id draw.now
    commit
    pure (record {
      id = user.id;
      email = user.email;
      display_name = user.display_name;
      tenant_id = tenant.id;
    })

  -- `user is None or not verify_password(…)`
  unfoldable pub authenticated : Text → Option User → Action User
  authenticated password none s = (err (http_exception 401 "invalid credentials"), s)
  authenticated password (some user) s =
      if verify_password hasher password user.password_hash
      then (ok user, s)
      else (err (http_exception 401 "invalid credentials"), s)

  -- the user agent and the address come from the request
  unfoldable pub login : LoginRequest → Option Text → Option Text → Draws → Action TokenResponse
  login req user_agent ip_address draw = do
    tenant ← get_or_create_tenant req.tenant_slug req.tenant_slug draw.tenant_id draw.now
    found ← by_email lower tenant.id req.email
    user ← authenticated req.password found
    raise_if (not user.is_active) (http_exception 403 "inactive user")
    let pair = token_pair user.id tenant.id draw
    save_refresh sha256 user.id pair.1 (draw.now + settings.jwt_refresh_ttl_days * 86400) user_agent
        ip_address draw.row_id draw.now
    touch_login user.id draw.now
    commit
    pure pair.0

  -- `except Exception` round the decoding
  abbrev pub or_invalid : Option TokenPayload → Action TokenPayload
  or_invalid none s = (err (http_exception 401 "invalid token"), s)
  or_invalid (some payload) s = (ok payload, s)

  unfoldable pub decoded : Moment → Text → Action TokenPayload
  decoded now token = or_invalid (decode_token jwt settings now token)

  abbrev pub is_refresh : TokenType → Bool
  is_refresh refresh = true
  is_refresh access = false

  -- `rt is None or rt.revoked_at is not None or rt.expires_at < now`
  abbrev pub is_spent : Moment → Option RefreshToken → Bool
  is_spent now none = true
  is_spent now (some rt) = is_some rt.revoked_at || ltb rt.expires_at now

  -- the part of `refresh` behind its checks: the old token is revoked, a new one is saved
  unfoldable pub rotate : Text → TokenPayload → Draws → Action TokenResponse
  rotate token payload draw = do
    revoke_refresh sha256 token draw.now
    let pair = token_pair payload.sub payload.tid draw
    save_refresh sha256 payload.sub pair.1 (draw.now + settings.jwt_refresh_ttl_days * 86400) none
        none draw.row_id draw.now
    commit
    pure pair.0

  unfoldable pub refresh_tokens : Text → Draws → Action TokenResponse
  refresh_tokens token draw = do
    payload ← decoded draw.now token
    raise_if (not (is_refresh payload.typ)) (http_exception 401 "wrong token type")
    rt ← get_refresh sha256 token
    raise_if (is_spent draw.now rt) (http_exception 401 "refresh revoked or expired")
    rotate token payload draw

  unfoldable pub logout : Text → Moment → Action (Unit {0})
  logout token now = do revoke_refresh sha256 token now; commit
