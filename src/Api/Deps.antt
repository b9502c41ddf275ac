-- ===== src/Api/Deps.antt =====
-- The dependencies of src/api/deps.py: the bearer token, the current user, the rate limit.
pub mod Checks
use legal_viet_namese.Base.{
  ℕ, Bool, true, false, not, ◌||◌, List, Option, none, some, Text, is_empty, is_some, if◌then◌else◌,
  Result, ok, err, Exec, ◌>>=◌, ◌>>◌, pure, raise_if,
}
use legal_viet_namese.Cache.SortedSet.{SortedSets}
use legal_viet_namese.Cache.RateLimit.{
  Request, RateLimitExceeded, rate_limit_exceeded, allow_request,
}
use legal_viet_namese.Core.Security.{TokenPayload, TokenType, access, refresh, decode_token}
use legal_viet_namese.Db.Models.{Uuid, Moment, User}
use legal_viet_namese.Db.Session.{Action, Exception, http_exception}
use legal_viet_namese.Db.Users.{by_id}
use legal_viet_namese.Api.Auth.{Host}

-- Text functions of Python: `is_bearer` is `h.lower().startswith("bearer ")`, and `token_part`
-- `h.split(" ", 1)[1].strip()`.
pub record Headers : Type 0 where
  pub is_bearer : Text → Bool
  pub token_part : Text → Text

abbrev pub is_access : TokenType → Bool
is_access access = true
is_access refresh = false

-- `u is None or not u.is_active`
abbrev pub is_inactive : Option User → Bool
is_inactive none = true
is_inactive (some u) = not u.is_active

module _ (headers : Headers) (host : Host) where
  unfoldable pub bearer : Option Text → Result Exception Text
  bearer none = err (http_exception 401 "missing bearer token")
  bearer (some h) =
      if is_empty h || not (headers.is_bearer h)
      then err (http_exception 401 "missing bearer token")
      else ok (headers.token_part h)

  abbrev pub checked : Option TokenPayload → Result Exception TokenPayload
  checked none = err (http_exception 401 "invalid token")
  checked (some payload) =
      if is_access payload.typ then ok payload else err (http_exception 401 "wrong token type")

  unfoldable pub current_token : Moment → Option Text → Result Exception TokenPayload
  current_token now authorization = elim (bearer authorization) [
    | err e ↦ err e
    | ok token ↦ checked (decode_token host.jwt host.settings now token)
  ]

  -- the user and the tenant
  unfoldable pub current_user : TokenPayload → Action (Uuid × Uuid)
  current_user token = do
    u ← by_id token.sub
    raise_if (is_inactive u) (http_exception 401 "user inactive")
    pure (token.sub, token.tid)

  -- both dependencies of a handler
  unfoldable pub authorize : Moment → Option Text → Action (Uuid × Uuid)
  authorize now authorization = do
    token ← λ s. (current_token now authorization, s)
    current_user token

module _ (redis : SortedSets) (member : ℕ → Text → Text) (show_id : Uuid → Text) where
  abbrev pub limited :
      {S : Type 0} → Result RateLimitExceeded (Bool × ℕ) × S → Result Exception (Unit {0}) × S
  limited (ok x, s) = (ok tt, s)
  limited (err e, s) = (err (http_exception 429 "rate limited"), s)

  -- The detail of the answer also says how long to wait.
  unfoldable pub rate_limit : Text → ℕ → ℕ → Uuid → Request → Exec redis.Store Exception (Unit {0})
  rate_limit bucket limit window_s user_id req s =
      limited (allow_request redis member (show_id user_id) bucket limit window_s req s)
