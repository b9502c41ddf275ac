-- ===== src/Api/Deps/Checks.antt =====
-- Who gets past the authentication of src/api/deps.py.
use legal_viet_namese.Base.{
  ◌≡◌, refl, true, ◌==◌, Option, none, some, Text, find?, Result, ok, err, Bool-cases, inl, inr,
  Option-cases, ap, ◌∙◌, continue, subst,
}
use legal_viet_namese.Core.Security.{TokenPayload, TokenType, access, refresh, decode_token}
use legal_viet_namese.Db.Models.{Uuid, Moment, User}
use legal_viet_namese.Db.Session.{Exception, Session}
use legal_viet_namese.Db.Users.{by_id}
use legal_viet_namese.Api.Auth.{Host}
use legal_viet_namese.Api.Deps.{
  Headers, bearer, checked, is_access, current_token, current_user, authorize,
}

is_access_sound : (t : TokenType) → is_access t ≡ true → t ≡ access
is_access_sound access h = refl
is_access_sound refresh h = cc

module _ (headers : Headers) (host : Host) (now : Moment) where
  -- a valid access token of the header
  pub record IsAccess (authorization : Option Text) (p : TokenPayload) : Type 0 where
    pub token : Text
    pub carried : bearer headers host authorization ≡ ok token
    pub decodes : decode_token host.jwt host.settings now token ≡ some p
    pub of_type : p.typ ≡ access

  checked-IsAccess :
      (authorization : Option Text) (token : Text) (d : Option TokenPayload) (p : TokenPayload)
      → bearer headers host authorization ≡ ok token
      → decode_token host.jwt host.settings now token ≡ d
      → checked headers host d ≡ ok p
      → IsAccess authorization p
  checked-IsAccess authorization token none p carried decodes h = cc
  checked-IsAccess authorization token (some q) p carried decodes h =
      elim (Bool-cases (is_access q.typ)) [
        | inr other ↦ cc (rw other at h)
        | inl right ↦
            let same : q ≡ p = cc (rw right at h) in
            record {
              token = token;
              carried = carried;
              decodes = decodes ∙ ap some same;
              of_type =
                  subst (λ (x : TokenPayload). x.typ ≡ access) same (is_access_sound q.typ right);
            }
      ]

  current_token-IsAccess :
      (authorization : Option Text) (p : TokenPayload)
      → current_token headers host now authorization ≡ ok p
      → IsAccess authorization p
  unfolding current_token
  current_token-IsAccess authorization p h = go (bearer headers host authorization) refl h
    where
      go :
          (r : Result Exception Text)
          → bearer headers host authorization ≡ r
          → (elim r [
            | err e ↦ err e
            | ok token ↦ checked headers host (decode_token host.jwt host.settings now token)
          ])
            ≡ ok p
          → IsAccess authorization p
      go (err e) carried h = cc
      go (ok token) carried h = checked-IsAccess authorization token _ p carried refl h

  current_user-active :
      (p : TokenPayload) (s : Session) (who : Uuid × Uuid)
      → (current_user headers host p s).0 ≡ ok who
      → ((p.sub, p.tid) ≡ who)
        × (row : User) × (find? (λ u. u.id == p.sub) s.work.users ≡ some row)
        × (row.is_active ≡ true)
  unfolding current_user by_id
  current_user-active p s who h = elim (Option-cases (find? (λ u. u.id == p.sub) s.work.users)) [
    | inl gone ↦ cc (rw gone at h)
    | inr (row, found) ↦ elim (Bool-cases row.is_active) [
      | inr off ↦ cc (rw (found, off) at h)
      | inl on ↦ (cc (rw (found, on) at h), row, found, on)
    ]
  ]

  -- A request that gets past the authentication carries a valid access token, for this user and
  -- tenant, and the user has a row that is active.
  pub authorize-active :
      (authorization : Option Text) (s : Session) (user_id tenant_id : Uuid)
      → (authorize headers host now authorization s).0 ≡ ok (user_id, tenant_id)
      → (p : TokenPayload) × IsAccess authorization p
        × (p.sub ≡ user_id)
        × (p.tid ≡ tenant_id)
        × (row : User) × (find? (λ u. u.id == p.sub) s.work.users ≡ some row)
        × (row.is_active ≡ true)
  unfolding authorize
  authorize-active authorization s user_id tenant_id h =
      go (current_token headers host now authorization) refl h
    where
      go :
          (r : Result Exception TokenPayload)
          → current_token headers host now authorization ≡ r
          → (continue r (current_user headers host) s).0 ≡ ok (user_id, tenant_id)
          → (p : TokenPayload) × IsAccess authorization p
            × (p.sub ≡ user_id)
            × (p.tid ≡ tenant_id)
            × (row : User) × (find? (λ u. u.id == p.sub) s.work.users ≡ some row)
            × (row.is_active ≡ true)
      go (err e) t h = cc
      go (ok p) t h =
          let (same, row, found, on) = current_user-active p s (user_id, tenant_id) h in
          (
            p,
            current_token-IsAccess authorization p t,
            ap (λ (x : Uuid × Uuid). x.0) same,
            ap (λ (x : Uuid × Uuid). x.1) same,
            row,
            found,
            on,
          )
