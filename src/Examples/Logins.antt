-- ===== src/Examples/Logins.antt =====
-- The handlers of src/api/routes/auth.py on a small database.
use legal_viet_namese.Base.{
  ℕ, zero, suc, ◌<◌, ◌≡◌, refl, ap, sym, ◌∙◌, [], ◌∷◌, Option, none, some, Text, String, chars,
  text_eq, text_eq_refl, ltb, lt→ltb, if◌then◌else◌, ok, err,
}
use legal_viet_namese.Core.Security.{
  PasswordHasher, Jwt, TokenPayload, TokenType, access, refresh, issue_access, issue_refresh, build,
  decode_token,
}
use legal_viet_namese.Db.Models.{Db, Moment, stamped}
use legal_viet_namese.Db.Session.{http_exception, get_session}
use legal_viet_namese.Db.Users.{
  create, token_row, get_or_create_tenant, by_email, get_refresh, save_refresh, revoke_refresh,
}
use legal_viet_namese.Api.Auth.Registration.{register-login}
use legal_viet_namese.Api.Auth.{
  UserOut, RegisterRequest, register, Host, Draws, LoginRequest, login, refresh_tokens, rotate,
  decoded, authenticated, token_pair, logout,
}
use legal_viet_namese.Api.Auth.Atomic.{login-stored, refresh_tokens-stored}
use legal_viet_namese.Api.Auth.Rotation.{refresh_once, logout_ends}

abbrev hasher : PasswordHasher
hasher = record {
  hash = λ salt plain. plain;
  verify = λ hashed plain. text_eq hashed plain;
  verify-hash = λ salt plain. text_eq_refl plain;
}

abbrev code_of : TokenType → ℕ
code_of access = 0
code_of refresh = 1

abbrev type_of : ℕ → TokenType
type_of zero = access
type_of (suc n) = refresh

abbrev pub encode : TokenPayload → Text
encode p = p.sub ∷ p.tid ∷ code_of p.typ ∷ p.jti ∷ p.exp ∷ p.iat ∷ []

abbrev blank : TokenPayload
blank = record { sub = 0; tid = 0; typ = access; jti = 0; exp = 0; iat = 0 }

abbrev read : Text → TokenPayload
read (sub ∷ tid ∷ typ ∷ jti ∷ exp ∷ iat ∷ []) = record {
  sub = sub;
  tid = tid;
  typ = type_of typ;
  jti = jti;
  exp = exp;
  iat = iat;
}
read _ = blank

type_of-code_of : (t : TokenType) → type_of (code_of t) ≡ t
type_of-code_of access = refl
type_of-code_of refresh = refl

read-encode : (p : TokenPayload) → read (encode p) ≡ p
read-encode p = ap (λ (t : TokenType). record p { typ = t }) (type_of-code_of p.typ)

abbrev decode : Moment → Text → Option TokenPayload
decode now raw = if ltb now (read raw).exp then some (read raw) else none

pub decode-encode : (p : TokenPayload) (now : Moment) → now < p.exp → decode now (encode p) ≡ some p
decode-encode p now h = rw (lt→ltb now p.exp h) (ap some (read-encode p))

pub encode-injective : (p q : TokenPayload) → encode p ≡ encode q → p ≡ q
encode-injective p q e = sym (read-encode p) ∙ ap read e ∙ read-encode q

unfoldable pub jwt : Jwt
jwt = record {
  encode = encode;
  decode = decode;
  decode-encode = decode-encode;
  encode-injective = encode-injective;
}

unfoldable pub host : Host
host = record {
  hasher = hasher;
  jwt = jwt;
  settings = record { jwt_access_ttl_min = 15; jwt_refresh_ttl_days = 30 };
  sha256 = λ t. t;
  lower = λ t. t;
}

abbrev draw : Draws
draw = record {
  tenant_id = 10;
  user_id = 11;
  row_id = 12;
  access_jti = 13;
  refresh_jti = 14;
  salt = [];
  now = 1000;
}

abbrev later : Draws
later = record draw { row_id = 22; access_jti = 23; refresh_jti = 24; now = 2000 }

-- a refresh token of user 11 that lasts until 9000
abbrev token : Text
token = encode (record { sub = 11; tid = 10; typ = refresh; jti = 4; exp = 9000; iat = 500 })

abbrev pub db : Db
db = record {
  tenants = [];
  users = [];
  refresh_tokens =
      record {
        id = 5;
        user_id = 11;
        token_hash = token;
        expires_at = 9000;
        revoked_at = none;
        user_agent = none;
        ip_address = none;
        times = stamped 500;
      }
      ∷ [];
  conversations = [];
  messages = [];
  documents = [];
  document_chunks = [];
  user_facts = [];
}

first_refresh :
    (get_session (refresh_tokens host token draw) db).0 ≡ ok (token_pair host 11 10 draw).0
unfolding host jwt get_session refresh_tokens decoded decode_token get_refresh rotate revoke_refresh
    save_refresh token_pair issue_access issue_refresh build
first_refresh = refl

refresh_once_example :
    (detail : String) × ((get_session
        (refresh_tokens host token later)
        (get_session (refresh_tokens host token draw) db).1).0
      ≡ err (http_exception 401 detail))
refresh_once_example =
    refresh_once host token draw later db (token_pair host 11 10 draw).0 first_refresh

logout_ends_example :
    (detail : String) × ((get_session
        (refresh_tokens host token later)
        (get_session (logout host token 1000) db).1).0
      ≡ err (http_exception 401 detail))
logout_ends_example = logout_ends host token 1000 later db

abbrev stranger : LoginRequest
stranger = record { email = chars "a@b.vn"; password = chars "x"; tenant_slug = chars "acme" }

login_refused :
    (get_session (login host stranger none none draw) db).0
    ≡ err (http_exception 401 "invalid credentials")
unfolding host get_session login get_or_create_tenant by_email authenticated
login_refused = refl

login-stored_example : (get_session (login host stranger none none draw) db).1 ≡ db
login-stored_example =
    login-stored host draw stranger none none db (http_exception 401 "invalid credentials")
      login_refused

garbage_refused :
    (get_session (refresh_tokens host [] draw) db).0 ≡ err (http_exception 401 "invalid token")
unfolding host jwt get_session refresh_tokens decoded decode_token
garbage_refused = refl

refresh_tokens-stored_example : (get_session (refresh_tokens host [] draw) db).1 ≡ db
refresh_tokens-stored_example =
    refresh_tokens-stored host draw [] db (http_exception 401 "invalid token") garbage_refused

abbrev newcomer : RegisterRequest
newcomer = record {
  email = chars "a@b.vn";
  password = chars "x";
  display_name = none;
  tenant_slug = chars "acme";
}

abbrev admitted : UserOut
admitted = record { id = 11; email = chars "a@b.vn"; display_name = none; tenant_id = 10 }

newcomer_registers : (get_session (register host newcomer draw) db).0 ≡ ok admitted
unfolding host get_session register get_or_create_tenant by_email create
newcomer_registers = refl

fresh_token :
    token_row
      (host.sha256 (token_pair host 11 10 later).1)
      (get_session (register host newcomer draw) db).1
    ≡ none
unfolding host jwt get_session register get_or_create_tenant by_email create token_pair issue_access
    issue_refresh build
fresh_token = refl

register-login_example :
    (get_session
      (login host stranger none none later)
      (get_session (register host newcomer draw) db).1).0
    ≡ ok (token_pair host 11 10 later).0
register-login_example =
    register-login host newcomer draw later none none db admitted newcomer_registers fresh_token
