-- ===== src/Api/Files/Commit.antt =====
-- The stored rows and the queue around the loop of the upload in src/api/routes/files.py.
use legal_viet_namese.Base.{
  ℕ, suc, ◌≡◌, refl, ap, ◌∙◌, ◌⊎◌, inl, inr, Bool, true, false, List, [], ◌∷◌, Option, none, some,
  Text, ltb, length, is_empty, Bool-cases, Result, ok, err, continue, ◌>>=◌, ◌>>◌, pure, raise_if,
}
use legal_viet_namese.Db.Models.{Document, Uuid}
use legal_viet_namese.Db.Session.{Exception, Action, commit}
use legal_viet_namese.Db.Session.Atomicity.{IsQuiet, select-IsQuiet, insert-IsQuiet}
use legal_viet_namese.Db.Documents
use legal_viet_namese.Api.Files.{
  UploadFile, UploadServices, World, Handler, DocumentOut, UploadResponse, in_tables, store_file,
  stored_object, put_object, upload_file, upload_all, enqueue_all, upload_files,
}

-- a handler that leaves the stored tables and the queue as they are, whatever it returns
record IsUncommitted {A : Type 0} (m : Handler A) : Type 0 where
  stored : (w : World) → (m w).1.session.stored ≡ w.session.stored
  queue : (w : World) → (m w).1.enqueued ≡ w.enqueued

bind-IsUncommitted :
    {A B : Type 0} (m : Handler A) (f : A → Handler B)
    → IsUncommitted m
    → ((a : A) → IsUncommitted (f a))
    → IsUncommitted (m >>= f)
bind-IsUncommitted m f q k = record {
  stored = λ w. s (m w).0 (m w).1 ∙ q.stored w;
  queue = λ w. e (m w).0 (m w).1 ∙ q.queue w;
}
  where
    s : (r : Result Exception _) (w : World) → (continue r f w).1.session.stored ≡ w.session.stored
    s (ok a) w = (k a).stored w
    s (err x) w = refl

    e : (r : Result Exception _) (w : World) → (continue r f w).1.enqueued ≡ w.enqueued
    e (ok a) w = (k a).queue w
    e (err x) w = refl

bind-stops :
    {A B : Type 0} (r : Result Exception A) (w : World) (f : A → Handler B)
    → ((a : A) × (r ≡ ok a)) ⊎ ((continue r f w).1 ≡ w)
bind-stops (ok a) w f = inl (a, refl)
bind-stops (err e) w f = inr refl

pure-IsUncommitted : {A : Type 0} (a : A) → IsUncommitted (pure a)
pure-IsUncommitted a = record { stored = λ w. refl; queue = λ w. refl }

raise_if-IsUncommitted : (b : Bool) (e : Exception) → IsUncommitted (raise_if b e)
raise_if-IsUncommitted true e = record { stored = λ w. refl; queue = λ w. refl }
raise_if-IsUncommitted false e = record { stored = λ w. refl; queue = λ w. refl }

in_tables-IsUncommitted :
    {A : Type 0} (action : Action A) → IsQuiet action → IsUncommitted (in_tables action)
in_tables-IsUncommitted action q = record { stored = λ w. q.at w.session; queue = λ w. refl }

by_checksum-IsQuiet :
    (tenant_id : Uuid) (checksum : Text) → IsQuiet (Documents.by_checksum tenant_id checksum)
unfolding Documents.by_checksum
by_checksum-IsQuiet tenant_id checksum = select-IsQuiet _

create-IsQuiet :
    (tenant_id user_id : Uuid) (title mime : Text) (size : ℕ) (checksum key : Text) (id now : ℕ)
    → IsQuiet (Documents.create tenant_id user_id title mime size checksum key id now)
unfolding Documents.create
create-IsQuiet tenant_id user_id title mime size checksum key id now = insert-IsQuiet _ _ _

module _ (sv : UploadServices) (user_id tenant_id : Uuid) where
  stored_object-IsUncommitted :
      (key content : Text) (r : Result Exception (Unit {0}))
      → IsUncommitted (stored_object sv user_id tenant_id key content r)
  stored_object-IsUncommitted key content (ok sent) = record {
    stored = λ w. refl;
    queue = λ w. refl;
  }
  stored_object-IsUncommitted key content (err e) = record { stored = λ w. refl; queue = λ w. refl }

  put_object-IsUncommitted :
      (key content mime : Text) → IsUncommitted (put_object sv user_id tenant_id key content mime)
  put_object-IsUncommitted key content mime = stored_object-IsUncommitted key content _

  ruleset upload_rules = (
    bind-IsUncommitted, pure-IsUncommitted, raise_if-IsUncommitted, in_tables-IsUncommitted,
    put_object-IsUncommitted, by_checksum-IsQuiet, create-IsQuiet,
  )

  store_file-IsUncommitted :
      (i : ℕ) (up : UploadFile) (existing : Option Document)
      → IsUncommitted (store_file sv user_id tenant_id i up existing)
  store_file-IsUncommitted i up none = search upload_rules depth 16
  store_file-IsUncommitted i up (some d) = pure-IsUncommitted _

  upload_file-IsUncommitted :
      (i : ℕ) (up : UploadFile) → IsUncommitted (upload_file sv user_id tenant_id i up)
  unfolding upload_file
  upload_file-IsUncommitted i up = search (upload_rules, store_file-IsUncommitted) depth 16

  upload_all-IsUncommitted :
      (i : ℕ) (ups : List UploadFile) → IsUncommitted (upload_all sv user_id tenant_id i ups)
  unfolding upload_all
  upload_all-IsUncommitted i [] = pure-IsUncommitted _
  upload_all-IsUncommitted i (up ∷ ups) =
      bind-IsUncommitted (upload_file sv user_id tenant_id i up) _ (upload_file-IsUncommitted i up)
        (λ first.
          bind-IsUncommitted (upload_all sv user_id tenant_id (suc i) ups) _
            (upload_all-IsUncommitted (suc i) ups) (λ rest. pure-IsUncommitted _))

  abbrev behind_loop : List DocumentOut × List Uuid → Handler UploadResponse
  behind_loop out = do
    in_tables commit
    jobs ← enqueue_all sv user_id tenant_id out.1
    pure (record { documents = out.0; job_ids = jobs })

  -- the state before the commit, or a loop that came to its end
  abbrev pub Stopped : List UploadFile → World → World → Type 0
  Stopped files w w' =
      (w'.session.stored ≡ w.session.stored) × (w'.enqueued ≡ w.enqueued)
      ⊎ ((out : List DocumentOut × List Uuid) × ((upload_all sv user_id tenant_id 0 files w).0
            ≡ ok out))

  -- An upload either gets through all of its files, or it stores no row and enqueues no job: a
  -- file that is refused takes the files before it along.
  pub upload_files-stored :
      (files : List UploadFile) (w : World)
      → Stopped files w (upload_files sv user_id tenant_id files w).1
  unfolding upload_files
  upload_files-stored files w = elim (Bool-cases (is_empty files)) [
    | inl bare ↦ rw bare (inl (refl, refl))
    | inr some_ ↦ elim (Bool-cases (ltb sv.max_files_per_request (length files))) [
      | inl many ↦ rw (some_, many) (inl (refl, refl))
      | inr few ↦
          let loop = upload_all sv user_id tenant_id 0 files in
          let quiet = upload_all-IsUncommitted 0 files in
          rw (some_, few)
            (elim (bind-stops (loop w).0 (loop w).1 behind_loop) [
              | inl ends ↦ inr ends
              | inr same ↦ inl (
                ap (λ (x : World). x.session.stored) same ∙ quiet.stored w,
                ap (λ (x : World). x.enqueued) same ∙ quiet.queue w,
              )
            ])
    ]
  ]
