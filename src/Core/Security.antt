-- ===== src/Core/Security.antt =====
-- src/core/security.py: passwords and tokens. argon2 and PyJWT are parameters, with their
-- documented behaviour; a claim that holds a UUID as text holds the UUID here, and the secret and
-- the algorithm of the settings are fixed inside the parameters.
use legal_viet_namese.Base.{ℕ, ◌+◌, ◌*◌, ◌<◌, ◌≡◌, Bool, true, Option, some, Text}
use legal_viet_namese.Db.Models.{Uuid, Moment}

pub data TokenType : Type 0 where
  access refresh : TokenType

pub record TokenPayload : Type 0 where
  pub sub : Uuid
  pub tid : Uuid
  pub typ : TokenType
  pub jti : Uuid
  pub exp : Moment
  pub iat : Moment

-- `PasswordHasher`: `hash` salts, so it takes the salt. `verify` raises VerifyMismatchError where
-- it is false here, which `verify_password` catches.
pub record PasswordHasher : Type 0 where
  pub hash : Text → Text → Text
  pub verify : Text → Text → Bool
  pub verify-hash : (salt plain : Text) → verify (hash salt plain) plain ≡ true

-- `jwt.encode` and `jwt.decode`, which raises on a bad signature and past `exp`
pub record Jwt : Type 0 where
  pub encode : TokenPayload → Text
  pub decode : Moment → Text → Option TokenPayload
  pub decode-encode :
      (p : TokenPayload) (now : Moment) → now < p.exp → decode now (encode p) ≡ some p
  pub encode-injective : (p q : TokenPayload) → encode p ≡ encode q → p ≡ q

pub record SecuritySettings : Type 0 where
  pub jwt_access_ttl_min : ℕ
  pub jwt_refresh_ttl_days : ℕ

unfoldable pub hash_password : PasswordHasher → Text → Text → Text
hash_password hasher salt plain = hasher.hash salt plain

unfoldable pub verify_password : PasswordHasher → Text → Text → Bool
verify_password hasher plain hashed = hasher.verify hashed plain

module _ (jwt : Jwt) (settings : SecuritySettings) where
  -- `ttl` is in seconds, `jti` the fresh token id
  unfoldable pub build : Uuid → Uuid → TokenType → ℕ → Uuid → Moment → Text × TokenPayload
  build user_id tenant_id typ ttl jti now =
      let payload : TokenPayload = record {
        sub = user_id;
        tid = tenant_id;
        typ = typ;
        jti = jti;
        iat = now;
        exp = now + ttl;
      } in
      (jwt.encode payload, payload)

  unfoldable pub issue_access : Uuid → Uuid → Uuid → Moment → Text × TokenPayload
  unfolding build
  issue_access user_id tenant_id = build user_id tenant_id access (settings.jwt_access_ttl_min * 60)

  unfoldable pub issue_refresh : Uuid → Uuid → Uuid → Moment → Text × TokenPayload
  unfolding build
  issue_refresh user_id tenant_id =
      build user_id tenant_id refresh (settings.jwt_refresh_ttl_days * 86400)

  unfoldable pub decode_token : Moment → Text → Option TokenPayload
  decode_token now token = jwt.decode now token
