-- ===== src/Api/Auth/Registration.antt =====
-- A login of src/api/routes/auth.py behind a registration.
use legal_viet_namese.Base.{
  ◌≡◌, refl, ap, sym, ◌∙◌, true, Text, text_eq, text_eq_refl, Option, none, some, [], ◌∷◌, ◌++◌,
  is_some, find?-append_none, ◌&&◌, ◌==◌, ==_refl, inl, inr, Option-cases, Result, ok, err, subst,
  ◌>>=◌, ◌>>◌, pure, raise_if,
}
use legal_viet_namese.Core.Security.{hash_password, verify_password}
use legal_viet_namese.Db.Models.{Db, Tenant, User, stamped}
use legal_viet_namese.Db.Session.{
  Action, Session, Exception, http_exception, get_session, commit, insert, insert,
}
use legal_viet_namese.Db.Users.{
  get_or_create_tenant, by_email, create, touch_login, save_refresh, tenant_of_slug, user_at,
  token_row,
}
use legal_viet_namese.Api.Auth.{
  Host, Draws, RegisterRequest, LoginRequest, UserOut, TokenResponse, register, login,
  authenticated, token_pair,
}

module _ (host : Host) where
  -- the tables know an active user of the tenant with this address, and the hash verifies
  record IsKnown (slug email password : Text) (t : Tenant) (u : User) (db : Db) : Type 0 where
    tenant : tenant_of_slug slug db ≡ some t
    row : user_at t.id (host.lower email) db ≡ some u
    verifies : verify_password host.hasher password u.password_hash ≡ true
    active : u.is_active ≡ true

  known-login :
      (req : LoginRequest) (agent ip : Option Text) (draw : Draws) (t : Tenant) (u : User) (db : Db)
      → IsKnown req.tenant_slug req.email req.password t u db
      → token_row (host.sha256 (token_pair host u.id t.id draw).1) db ≡ none
      → (get_session (login host req agent ip draw) db).0 ≡ ok (token_pair host u.id t.id draw).0
  unfolding get_session login get_or_create_tenant by_email authenticated save_refresh touch_login
  known-login req agent ip draw t u db k fresh =
      rw (k.tenant, k.row, k.verifies, k.active, fresh, get_or_create_tenant) refl

  abbrev new_user : RegisterRequest → Draws → Tenant → User
  new_user req draw t = record {
    id = draw.user_id;
    tenant_id = t.id;
    email = host.lower req.email;
    password_hash = hash_password host.hasher draw.salt req.password;
    display_name = req.display_name;
    is_active = true;
    last_login_at = none;
    times = stamped draw.now;
  }

  new_user-IsKnown :
      (req : RegisterRequest) (draw : Draws) (t : Tenant) (db : Db)
      → tenant_of_slug req.tenant_slug db ≡ some t
      → user_at t.id (host.lower req.email) db ≡ none
      → IsKnown req.tenant_slug req.email req.password t
          (new_user req draw t)
          (record db { users = db.users ++ (new_user req draw t ∷ []) })
  unfolding hash_password verify_password
  new_user-IsKnown req draw t db there absent = record {
    tenant = there;
    row =
        find?-append_none (λ u. (u.tenant_id == t.id) && text_eq u.email (host.lower req.email))
          db.users (new_user req draw t ∷ []) absent
        ∙ rw (==_refl t.id, text_eq_refl (host.lower req.email)) refl;
    verifies = host.hasher.verify-hash draw.salt req.password;
    active = refl;
  }

  -- what a registration leaves: its user is known, in the tenant that it names
  record IsRegistered (req : RegisterRequest) (out : UserOut) (db : Db) : Type 0 where
    t : Tenant
    u : User
    known : IsKnown req.tenant_slug req.email req.password t u db
    same_user : u.id ≡ out.id
    same_tenant : t.id ≡ out.tenant_id

  module _ (req : RegisterRequest) (draw : Draws) where
    -- the part of `register` behind the tenant
    abbrev enroll : Tenant → Action UserOut
    enroll t = do
      existing ← by_email host.lower t.id req.email
      raise_if (is_some existing) (http_exception 409 "email already registered")
      user ←
          create host.lower t.id req.email (hash_password host.hasher draw.salt req.password)
            req.display_name draw.user_id draw.now
      commit
      pure (record {
        id = user.id;
        email = user.email;
        display_name = user.display_name;
        tenant_id = t.id;
      })

    abbrev shown : Tenant → UserOut
    shown t = record {
      id = draw.user_id;
      email = host.lower req.email;
      display_name = req.display_name;
      tenant_id = t.id;
    }

    abbrev with_user : Tenant → Db → Db
    with_user t db = record db { users = db.users ++ (new_user req draw t ∷ []) }

    enroll-taken :
        (t : Tenant) (s : Session) (old : User)
        → user_at t.id (host.lower req.email) s.work ≡ some old
        → (enroll t s).0 ≡ err (http_exception 409 "email already registered")
    unfolding by_email
    enroll-taken t s old taken = rw (taken, enroll) refl

    enroll-absent :
        (t : Tenant) (s : Session)
        → user_at t.id (host.lower req.email) s.work ≡ none
        → enroll t s
          ≡ (ok (shown t), record { stored = with_user t s.work; work = with_user t s.work })
    unfolding by_email create
    enroll-absent t s absent = rw (absent, enroll) (rw (absent, create, insert) refl)

    enroll-IsRegistered :
        (t : Tenant) (s : Session) (out : UserOut)
        → tenant_of_slug req.tenant_slug s.work ≡ some t
        → (enroll t s).0 ≡ ok out
        → IsRegistered req out (enroll t s).1.stored
    enroll-IsRegistered t s out there h =
        elim (Option-cases (user_at t.id (host.lower req.email) s.work)) [
          | inr (old, taken) ↦ cc (sym (enroll-taken t s old taken) ∙ h)
          | inl absent ↦
              let done = enroll-absent t s absent in
              let same : shown t ≡ out = cc (sym (ap (λ x. x.0) done) ∙ h) in
              subst (λ (x : Result Exception UserOut × Session). IsRegistered req out x.1.stored)
                (sym done)
                (record {
                  t = t;
                  u = new_user req draw t;
                  known = new_user-IsKnown req draw t s.work there absent;
                  same_user = ap (λ (o : UserOut). o.id) same;
                  same_tenant = ap (λ (o : UserOut). o.tenant_id) same;
                })
        ]

    abbrev new_tenant : Tenant
    new_tenant = record {
      id = draw.tenant_id;
      name = req.tenant_slug;
      slug = req.tenant_slug;
      times = stamped draw.now;
    }

    register-IsRegistered :
        (db : Db) (out : UserOut)
        → (get_session (register host req draw) db).0 ≡ ok out
        → IsRegistered req out (get_session (register host req draw) db).1
    unfolding get_session register get_or_create_tenant
    register-IsRegistered db out h = elim (Option-cases (tenant_of_slug req.tenant_slug db)) [
      | inr (t, there) ↦
          let start : Session = record { stored = db; work = db } in
          let same : register host req draw start ≡ enroll t start =
            rw (there, get_or_create_tenant) refl in
          subst (λ (x : Result Exception UserOut × Session). IsRegistered req out x.1.stored)
            (sym same) (enroll-IsRegistered t start out there (ap (λ x. x.0) (sym same) ∙ h))
      | inl missing ↦
          let start : Session = record { stored = db; work = db } in
          let with_tenant : Session = record {
            stored = db;
            work = record db { tenants = db.tenants ++ (new_tenant ∷ []) };
          } in
          let there : tenant_of_slug req.tenant_slug with_tenant.work ≡ some new_tenant =
            find?-append_none (λ t. text_eq t.slug req.tenant_slug) db.tenants (new_tenant ∷ [])
              missing
            ∙ rw (text_eq_refl req.tenant_slug) refl in
          let same : register host req draw start ≡ enroll new_tenant with_tenant =
            rw (missing, get_or_create_tenant) (rw (missing, insert) refl) in
          subst (λ (x : Result Exception UserOut × Session). IsRegistered req out x.1.stored)
            (sym same)
            (enroll-IsRegistered new_tenant with_tenant out there (ap (λ x. x.0) (sym same) ∙ h))
    ]

    -- After a registration that succeeded, a login with its address, password and tenant succeeds,
    -- with tokens for the user and the tenant that the registration has returned, at any time,
    -- unless the new refresh token has the hash of a stored one.
    pub register-login :
        (later : Draws) (agent ip : Option Text) (db : Db) (out : UserOut)
        → (get_session (register host req draw) db).0 ≡ ok out
        → token_row
            (host.sha256 (token_pair host out.id out.tenant_id later).1)
            (get_session (register host req draw) db).1
          ≡ none
        → (get_session
            (login host
              (record { email = req.email; password = req.password; tenant_slug = req.tenant_slug })
              agent
              ip
              later)
            (get_session (register host req draw) db).1).0
          ≡ ok (token_pair host out.id out.tenant_id later).0
    register-login later agent ip db out h fresh =
        let r = register-IsRegistered db out h in
        let pair : token_pair host r.u.id r.t.id later
            ≡ token_pair host out.id out.tenant_id later =
          rw (r.same_user, r.same_tenant) refl in
        known-login _ agent ip later r.t r.u _ r.known (rw pair fresh)
        ∙ ap {B = Result Exception TokenResponse} (λ x. ok x.0) pair
