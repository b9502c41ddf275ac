-- ===== src/Db/Documents.antt =====
-- `DocumentRepo` of src/db/repositories/document.py.
use legal_viet_namese.Base.{
  ℕ, Bool, true, false, List, [], ◌∷◌, ◌++◌, Option, none, some, Text, text_eq, ◌&&◌, ◌||◌, find?,
  filter, is_some, update_where, take, drop, sort_desc, ltb, if◌then◌else◌, ok, or_else, ◌==◌,
}
use legal_viet_namese.Db.Models.{
  Db, Document, DocumentChunk, Status, pending, indexed, Uuid, Moment, Jsonb, stamped, touched,
}
use legal_viet_namese.Db.Session.{Action, select, change, insert}

-- the row that a unique constraint on the tenant and the checksum allows
abbrev pub document_of : Uuid → Text → Db → Option Document
document_of tenant_id checksum db =
    find? (λ d. (d.tenant_id == tenant_id) && text_eq d.checksum_sha256 checksum) db.documents

abbrev pub document_at : Uuid → Db → Option Document
document_at id db = find? (λ d. d.id == id) db.documents

unfoldable pub create :
    Uuid → Uuid → Text → Text → ℕ → Text → Text → Uuid → Moment → Action Document
create tenant_id user_id title mime_type size_bytes checksum storage_key id now =
    let d : Document = record {
      id = id;
      tenant_id = tenant_id;
      user_id = user_id;
      title = take 512 title;
      mime_type = mime_type;
      size_bytes = size_bytes;
      checksum_sha256 = checksum;
      storage_key = storage_key;
      status = pending;
      n_chunks = none;
      markdown_key = none;
      error = none;
      meta = [];
      indexed_at = none;
      times = stamped now;
    } in
    insert d (λ db. is_some (document_of tenant_id checksum db))
      (λ db. record db { documents = db.documents ++ (d ∷ []) })

unfoldable pub get : Uuid → Uuid → Action (Option Document)
get doc_id user_id =
    select (λ db. find? (λ d. (d.id == doc_id) && (d.user_id == user_id)) db.documents)

unfoldable pub get_internal : Uuid → Action (Option Document)
get_internal doc_id = select (document_at doc_id)

unfoldable pub by_checksum : Uuid → Text → Action (Option Document)
by_checksum tenant_id checksum = select (document_of tenant_id checksum)

-- Rows that were created at one moment keep the order of insertion.
unfoldable pub list_for_user : Uuid → ℕ → ℕ → Action (List Document)
list_for_user user_id limit offset = select λ db. take limit (
    drop offset (
      sort_desc (λ a b. ltb a.times.created_at b.times.created_at)
        (filter (λ d. d.user_id == user_id) db.documents)))

-- the keyword arguments of `set_status`; `none` leaves a column alone
pub record Changes : Type 0 where
  pub error : Option Text
  pub n_chunks : Option ℕ
  pub markdown_key : Option Text
  pub meta : Option Jsonb

abbrev pub no_changes : Changes
no_changes = record { error = none; n_chunks = none; markdown_key = none; meta = none }

-- `x` where it is given, else what the column holds
abbrev pub given {ℓ} : {A : Type ℓ} → Option A → Option A → Option A
given none old = old
given (some x) old = some x

abbrev pub is_indexed : Status → Bool
is_indexed indexed = true
is_indexed _ = false

abbrev pub with_status : Status → Changes → Moment → Document → Document
with_status status c now d = record d {
  status = status;
  error = given c.error d.error;
  n_chunks = given c.n_chunks d.n_chunks;
  markdown_key = given c.markdown_key d.markdown_key;
  meta = or_else c.meta d.meta;
  indexed_at = if is_indexed status then some now else d.indexed_at;
  times = touched now d.times;
}

unfoldable pub set_status : Uuid → Status → Changes → Moment → Action (Unit {0})
set_status doc_id status c now = change λ db. record db {
  documents = update_where (λ d. d.id == doc_id) (with_status status c now) db.documents;
}

abbrev pub has_chunk : Uuid → ℕ → List DocumentChunk → Bool
has_chunk doc_id index [] = false
has_chunk doc_id index (c ∷ cs) =
    ((c.document_id == doc_id) && (c.chunk_index == index)) || has_chunk doc_id index cs

-- some new chunk has the document and the index of a chunk that is there, or of a new one before it
abbrev pub chunks_clash : List DocumentChunk → List DocumentChunk → Bool
chunks_clash old [] = false
chunks_clash old (c ∷ new) = has_chunk c.document_id c.chunk_index old || chunks_clash (c ∷ old) new

-- `uq_chunk_doc_idx` refuses a second chunk with one document and index.
unfoldable pub bulk_insert_chunks : List DocumentChunk → Action (Unit {0})
bulk_insert_chunks chunks =
    insert tt (λ db. chunks_clash db.document_chunks chunks)
      (λ db. record db { document_chunks = db.document_chunks ++ chunks })

abbrev pub among : List Uuid → Uuid → Bool
among [] id = false
among (x ∷ xs) id = (x == id) || among xs id

unfoldable pub get_chunks_by_ids : List Uuid → Action (List DocumentChunk)
get_chunks_by_ids [] s = (ok [], s)
get_chunks_by_ids (id ∷ ids) s =
    (ok (filter (λ c. among (id ∷ ids) c.id) s.work.document_chunks), s)
