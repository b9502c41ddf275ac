-- ===== src/Db/Users.antt =====
-- `UserRepo` of src/db/repositories/user.py. `lower` is `str.lower`, `sha256` the hex digest.
use legal_viet_namese.Base.{
  true, [], ◌∷◌, ◌++◌, Option, none, some, Text, text_eq, ◌&&◌, find?, is_some, update_where,
  if◌then◌else◌, ok, ◌==◌,
}
use legal_viet_namese.Db.Models.{Db, Tenant, User, RefreshToken, Uuid, Moment, stamped, touched}
use legal_viet_namese.Db.Session.{Action, select, change, insert}

abbrev pub tenant_of_slug : Text → Db → Option Tenant
tenant_of_slug slug db = find? (λ t. text_eq t.slug slug) db.tenants

unfoldable pub get_or_create_tenant : Text → Text → Uuid → Moment → Action Tenant
get_or_create_tenant slug name id now s = elim (tenant_of_slug slug s.work) [
  | some t ↦ (ok t, s)
  | none ↦
      let t : Tenant = record { id = id; name = name; slug = slug; times = stamped now } in
      insert t (λ db. is_some (tenant_of_slug slug db))
        (λ db. record db { tenants = db.tenants ++ (t ∷ []) }) s
]

abbrev pub user_at : Uuid → Text → Db → Option User
user_at tenant_id email db =
    find? (λ u. (u.tenant_id == tenant_id) && text_eq u.email email) db.users

unfoldable pub by_email : (Text → Text) → Uuid → Text → Action (Option User)
by_email lower tenant_id email = select (user_at tenant_id (lower email))

unfoldable pub by_id : Uuid → Action (Option User)
by_id user_id = select (λ db. find? (λ u. u.id == user_id) db.users)

unfoldable pub create :
    (Text → Text) → Uuid → Text → Text → Option Text → Uuid → Moment → Action User
create lower tenant_id email password_hash display_name id now =
    let u : User = record {
      id = id;
      tenant_id = tenant_id;
      email = lower email;
      password_hash = password_hash;
      display_name = display_name;
      is_active = true;
      last_login_at = none;
      times = stamped now;
    } in
    insert u (λ db. is_some (user_at tenant_id (lower email) db))
      (λ db. record db { users = db.users ++ (u ∷ []) })

unfoldable pub touch_login : Uuid → Moment → Action (Unit {0})
touch_login user_id now = change λ db. record db {
  users =
      update_where (λ u. u.id == user_id)
        (λ u. record u { last_login_at = some now; times = touched now u.times }) db.users;
}

abbrev pub token_row : Text → Db → Option RefreshToken
token_row hash db = find? (λ r. text_eq r.token_hash hash) db.refresh_tokens

-- `if rt.revoked_at is None: rt.revoked_at = now`
abbrev pub revoked : Moment → RefreshToken → RefreshToken
revoked now r =
    if is_some r.revoked_at
    then r
    else record r { revoked_at = some now; times = touched now r.times }

abbrev pub revoke_row : Text → Moment → Db → Db
revoke_row hash now db = record db {
  refresh_tokens = update_where (λ r. text_eq r.token_hash hash) (revoked now) db.refresh_tokens;
}

module _ (sha256 : Text → Text) where
  unfoldable pub save_refresh :
      Uuid → Text → Moment → Option Text → Option Text → Uuid → Moment → Action RefreshToken
  save_refresh user_id token expires_at user_agent ip_address id now =
      let r : RefreshToken = record {
        id = id;
        user_id = user_id;
        token_hash = sha256 token;
        expires_at = expires_at;
        revoked_at = none;
        user_agent = user_agent;
        ip_address = ip_address;
        times = stamped now;
      } in
      insert r (λ db. is_some (token_row (sha256 token) db))
        (λ db. record db { refresh_tokens = db.refresh_tokens ++ (r ∷ []) })

  unfoldable pub get_refresh : Text → Action (Option RefreshToken)
  get_refresh token = select (token_row (sha256 token))

  -- The token hash is unique, so the row that is found is the only one to change.
  unfoldable pub revoke_refresh : Text → Moment → Action (Unit {0})
  revoke_refresh token now = change (revoke_row (sha256 token) now)
