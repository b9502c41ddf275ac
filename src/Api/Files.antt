-- ===== src/Api/Files.antt =====
-- The upload of src/api/routes/files.py, with the lists of a user's documents.
pub mod Commit
pub mod Events
use legal_viet_namese.Base.{
  ℕ, suc, Bool, true, false, not, ◌&&◌, ◌*◌, List, [], ◌∷◌, ◌++◌, Option, none, some, Text, chars,
  map, length, is_empty, is_some, ltb, or_else, ◌==◌, if◌then◌else◌, Result, ok, err, Exec, ◌>>=◌,
  ◌>>◌, pure, raise_if,
}
use legal_viet_namese.Db.Models.{Document, Status, Uuid, Moment}
use legal_viet_namese.Db.Session.{Session, Action, Exception, http_exception, commit}
use legal_viet_namese.Db.Documents

pub record DocumentOut : Type 0 where
  pub id : Uuid
  pub title : Text
  pub mime_type : Text
  pub size_bytes : ℕ
  pub status : Status
  pub n_chunks : Option ℕ
  pub error : Option Text
  pub created_at : Moment
  pub indexed_at : Option Moment

abbrev pub doc_to_out : Document → DocumentOut
doc_to_out d = record {
  id = d.id;
  title = d.title;
  mime_type = d.mime_type;
  size_bytes = d.size_bytes;
  status = d.status;
  n_chunks = d.n_chunks;
  error = d.error;
  created_at = d.times.created_at;
  indexed_at = d.indexed_at;
}

pub record UploadResponse : Type 0 where
  pub documents : List DocumentOut
  pub job_ids : List Text

-- one file of the request
pub record UploadFile : Type 0 where
  pub filename : Option Text
  pub content_type : Option Text
  pub content : Text

-- What the handler takes from elsewhere. `allowed` is the test of the settings, `known_extension`
-- that of the lowered name, `storage_key` the f-string, `put_object` and `enqueue_job` may raise;
-- the i-th file draws `draw i` for its storage key and `row_id i` for its row.
pub record UploadServices : Type 0 where
  pub max_files_per_request : ℕ
  pub max_upload_size_mb : ℕ
  pub allowed : Text → Bool
  pub known_extension : Text → Bool
  pub sha256 : Text → Text
  pub storage_key : Uuid → Uuid → Text
  pub put_object : Text → Text → Text → Result Exception (Unit {0})
  pub enqueue_job : Uuid → Result Exception (Option Text)
  pub draw : ℕ → Uuid
  pub row_id : ℕ → Uuid
  pub now : Moment

pub record World : Type 0 where
  pub session : Session
  -- the keys and the bytes that the object store was given
  pub objects : List (Text × Text)
  pub enqueued : List Uuid

abbrev pub Handler : Type 0 → Type 0
Handler A = Exec World Exception A

abbrev pub in_tables : {A : Type 0} → Action A → Handler A
in_tables action w = let (r, s) = action w.session in (r, record w { session = s })

-- `x or d`: an empty text is false too
abbrev pub text_or : Option Text → Text → Text
text_or none d = d
text_or (some t) d = if is_empty t then d else t

module _ (sv : UploadServices) (user_id tenant_id : Uuid) where
  abbrev pub mime_of : UploadFile → Text
  mime_of up = text_or up.content_type (chars "application/octet-stream")

  -- the checks of one file
  abbrev pub check_file : UploadFile → Handler (Unit {0})
  check_file up = do
    raise_if (is_empty up.content) (http_exception 400 "empty file")
    raise_if (ltb (sv.max_upload_size_mb * 1024 * 1024) (length up.content))
        (http_exception 413 "file too large")
    raise_if (not (sv.allowed (mime_of up)) && not (sv.known_extension (text_or up.filename [])))
        (http_exception 415 "unsupported type")

  abbrev pub stored_object : Text → Text → Result Exception (Unit {0}) → Handler (Unit {0})
  stored_object key content (ok sent) w =
      (ok tt, record w { objects = w.objects ++ ((key, content) ∷ []) })
  stored_object key content (err e) w = (err e, w)

  abbrev pub put_object : Text → Text → Text → Handler (Unit {0})
  put_object key content mime = stored_object key content (sv.put_object key content mime)

  -- A document of the tenant with these bytes is returned as it is; a new one is to be enqueued.
  abbrev pub store_file : ℕ → UploadFile → Option Document → Handler (DocumentOut × List Uuid)
  store_file i up (some existing) = pure (doc_to_out existing, [])
  store_file i up none = do
    let key = sv.storage_key tenant_id (sv.draw i)
    put_object key up.content (mime_of up)
    d ← in_tables (
        Documents.create tenant_id user_id (text_or up.filename (chars "untitled")) (mime_of up)
          (length up.content) (sv.sha256 up.content) key (sv.row_id i) sv.now)
    pure (doc_to_out d, d.id ∷ [])

  -- one round of the loop
  unfoldable pub upload_file : ℕ → UploadFile → Handler (DocumentOut × List Uuid)
  upload_file i up = do
    check_file up
    existing ← in_tables (Documents.by_checksum tenant_id (sv.sha256 up.content))
    store_file i up existing

  -- the loop, from the i-th file on
  unfoldable pub upload_all : ℕ → List UploadFile → Handler (List DocumentOut × List Uuid)
  upload_all i [] = pure ([], [])
  upload_all i (up ∷ ups) = do
    first ← upload_file i up
    rest ← upload_all (suc i) ups
    pure (first.0 ∷ rest.0, first.1 ++ rest.1)

  abbrev pub add_job : Option Text → List Text → List Text
  add_job none ids = ids
  add_job (some id) ids = id ∷ ids

  abbrev pub sent : Uuid → Result Exception (Option Text) → Handler (Option Text)
  sent doc_id (ok job) w = (ok job, record w { enqueued = w.enqueued ++ (doc_id ∷ []) })
  sent doc_id (err e) w = (err e, w)

  unfoldable pub enqueue_all : List Uuid → Handler (List Text)
  enqueue_all [] = pure []
  enqueue_all (doc_id ∷ ids) = do
    job ← sent doc_id (sv.enqueue_job doc_id)
    jobs ← enqueue_all ids
    pure (add_job job jobs)

  unfoldable pub upload_files : List UploadFile → Handler UploadResponse
  upload_files files = do
    raise_if (is_empty files) (http_exception 400 "no files")
    raise_if (ltb sv.max_files_per_request (length files)) (http_exception 400 "too many files")
    out ← upload_all 0 files
    in_tables commit
    jobs ← enqueue_all out.1
    pure (record { documents = out.0; job_ids = jobs })

unfoldable pub list_files : Uuid × Uuid → ℕ → ℕ → Action (List DocumentOut)
list_files (user_id, tenant_id) limit offset = do
  items ← Documents.list_for_user user_id limit offset
  pure (map doc_to_out items)

abbrev pub found_or_404 : Option Document → Action DocumentOut
found_or_404 none s = (err (http_exception 404 "not found"), s)
found_or_404 (some d) s = (ok (doc_to_out d), s)

unfoldable pub get_file : Uuid → Uuid × Uuid → Action DocumentOut
get_file doc_id (user_id, tenant_id) = do d ← Documents.get doc_id user_id; found_or_404 d
