-- ===== src/Api/Auth/Rotation.antt =====
-- A refresh token of src/api/routes/auth.py after a refresh and after a logout.
use mathlib.Core.List.{append-nil}
use legal_viet_namese.Base.{
  ◌≡◌, sym, true, String, Text, some, inl, inr, Option-cases, Bool-cases, arith, ok, err, is_some,
  text_eq, find?, find?-append, find?-update_where, find?-update_where-none, update_where, List, [],
  ◌++◌, ◌∙◌, or_else, subst, ap,
}
use legal_viet_namese.Core.Security.{TokenPayload, decode_token}
use legal_viet_namese.Db.Models.{Db, RefreshToken, Moment}
use legal_viet_namese.Db.Session.{Session, http_exception, get_session}
use legal_viet_namese.Db.Users.{
  save_refresh, get_refresh, revoke_refresh, token_row, revoked, revoke_row,
}
use legal_viet_namese.Api.Auth.{
  Host, Draws, TokenResponse, refresh_tokens, logout, decoded, is_refresh, is_spent, token_pair,
  rotate,
}

-- the row of the token, if there is one, is revoked
abbrev pub IsRevoked : Host → Text → Db → Type 0
IsRevoked host token db =
    (r : RefreshToken) → token_row (host.sha256 token) db ≡ some r → is_some r.revoked_at ≡ true

module _ (host : Host) (token : Text) where
  revoked-is_spent :
      (now : Moment) (db : Db)
      → IsRevoked host token db
      → is_spent host now (token_row (host.sha256 token) db) ≡ true
  revoked-is_spent now db h = elim (Option-cases (token_row (host.sha256 token) db)) [
    | inl gone ↦ rw gone
    | inr (r, found) ↦ rw found (ground (arith, h r found))
  ]

  pub revoked_refused :
      (draw : Draws) (db : Db)
      → IsRevoked host token db
      → (detail : String) × ((get_session (refresh_tokens host token draw) db).0
          ≡ err (http_exception 401 detail))
  unfolding get_session refresh_tokens decoded get_refresh
  revoked_refused draw db h =
      elim (Option-cases (decode_token host.jwt host.settings draw.now token)) [
        | inl bad ↦ ("invalid token", rw bad)
        | inr (payload, good) ↦ elim (Bool-cases (is_refresh host payload.typ)) [
          | inr other ↦ ("wrong token type", rw (good, other))
          | inl right ↦
              ("refresh revoked or expired", rw (good, right, revoked-is_spent draw.now db h))
        ]
      ]

  kept_hash :
      (now : Moment) (r : RefreshToken)
      → text_eq r.token_hash (host.sha256 token) ≡ true
      → text_eq (revoked now r).token_hash (host.sha256 token) ≡ true
  kept_hash now r h = ground arith

  revoked-is_revoked : (now : Moment) (r : RefreshToken) → is_some (revoked now r).revoked_at ≡ true
  revoked-is_revoked now r = ground arith

  -- the revocation, and any rows behind it
  revoke-IsRevoked :
      (now : Moment) (rows more : List RefreshToken) (r r' : RefreshToken)
      → find? (λ x. text_eq x.token_hash (host.sha256 token)) rows ≡ some r
      → find?
          (λ x. text_eq x.token_hash (host.sha256 token))
          (update_where (λ x. text_eq x.token_hash (host.sha256 token)) (revoked now) rows ++ more)
        ≡ some r'
      → is_some r'.revoked_at ≡ true
  revoke-IsRevoked now rows more r r' found found' =
      let there =
        find?-append (λ x. text_eq x.token_hash (host.sha256 token)) _ more (revoked now r)
          (find?-update_where (λ x. text_eq x.token_hash (host.sha256 token)) (revoked now) rows r
            (kept_hash now) found) in
      subst (λ o. is_some (or_else o r).revoked_at ≡ true) (sym there ∙ found')
        (revoked-is_revoked now r)

  rotate-IsRevoked :
      (draw : Draws) (payload : TokenPayload) (s : Session) (r0 : RefreshToken)
      (tokens : TokenResponse)
      → token_row (host.sha256 token) s.work ≡ some r0
      → (rotate host token payload draw s).0 ≡ ok tokens
      → IsRevoked host token (rotate host token payload draw s).1.stored
  unfolding rotate revoke_refresh save_refresh
  rotate-IsRevoked draw payload s r0 tokens there h r found =
      elim (Bool-cases (
        is_some (
          token_row (host.sha256 (token_pair host payload.sub payload.tid draw).1)
            (revoke_row (host.sha256 token) draw.now s.work)))) [
              | inl clash ↦ cc (rw clash at h)
              | inr free ↦
                  revoke-IsRevoked draw.now s.work.refresh_tokens _ r0 r there (rw free at found)
            ]

  -- after a success
  refreshed-IsRevoked :
      (draw : Draws) (db : Db) (tokens : TokenResponse)
      → (get_session (refresh_tokens host token draw) db).0 ≡ ok tokens
      → IsRevoked host token (get_session (refresh_tokens host token draw) db).1
  unfolding get_session refresh_tokens decoded get_refresh
  refreshed-IsRevoked draw db tokens h =
      elim (Option-cases (decode_token host.jwt host.settings draw.now token)) [
        | inl bad ↦ cc (rw bad at h)
        | inr (payload, good) ↦ elim (Bool-cases (is_refresh host payload.typ)) [
          | inr other ↦ cc (rw (good, other) at h)
          | inl right ↦
              elim (Bool-cases (is_spent host draw.now (token_row (host.sha256 token) db))) [
                | inl spent ↦ cc (rw (good, right, spent) at h)
                | inr fresh ↦ elim (Option-cases (token_row (host.sha256 token) db)) [
                  | inl gone ↦ cc (rw gone at fresh)
                  | inr (r0, there) ↦
                      let start : Session = record { stored = db; work = db } in
                      let same : refresh_tokens host token draw start
                          ≡ rotate host token payload draw start =
                        rw (good, right, fresh) in
                      subst (λ x. IsRevoked host token x.1.stored) (sym same)
                        (rotate-IsRevoked draw payload start r0 tokens there
                          (ap (λ x. x.0) (sym same) ∙ h))
                ]
              ]
        ]
      ]

  -- A refresh token that has been exchanged once is refused from then on with a 401, at any time.
  pub refresh_once :
      (draw later : Draws) (db : Db) (tokens : TokenResponse)
      → (get_session (refresh_tokens host token draw) db).0 ≡ ok tokens
      → (detail : String) × ((get_session
            (refresh_tokens host token later)
            (get_session (refresh_tokens host token draw) db).1).0
          ≡ err (http_exception 401 detail))
  refresh_once draw later db tokens h =
      revoked_refused later _ (refreshed-IsRevoked draw db tokens h)

  logout-IsRevoked :
      (now : Moment) (db : Db) → IsRevoked host token (get_session (logout host token now) db).1
  unfolding get_session logout revoke_refresh
  logout-IsRevoked now db r found = elim (Option-cases (token_row (host.sha256 token) db)) [
    | inl gone ↦ cc (
        sym (
          find?-update_where-none (λ x. text_eq x.token_hash (host.sha256 token)) (revoked now)
            db.refresh_tokens gone)
        ∙ found)
    | inr (r0, there) ↦ revoke-IsRevoked now db.refresh_tokens [] r0 r there (rw append-nil found)
  ]

  -- After a logout the token is refused with a 401, at any time, whether it was valid or not.
  pub logout_ends :
      (now : Moment) (later : Draws) (db : Db)
      → (detail : String) × ((get_session
            (refresh_tokens host token later)
            (get_session (logout host token now) db).1).0
          ≡ err (http_exception 401 detail))
  logout_ends now later db = revoked_refused later _ (logout-IsRevoked now db)
