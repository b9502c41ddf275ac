-- ===== src/Examples/Jobs.antt =====
-- A job on one document, and one whose download fails.
use legal_viet_namese.Base.{
  Option, if◌then◌else◌, ap, sym, ◌∙◌, slices, ℕ, ◌≡◌, ◌≢◌, refl, false, List, [], ◌∷◌, ◌++◌,
  filter, not, ◌==◌, none, some, strip, lstrip, rstrip, is_space, ends_with, Text, chars, Result,
  ok, err,
}
use legal_viet_namese.Db.Models.{DocumentChunk, Document, pending, Uuid, stamped}
use legal_viet_namese.Db.Session.{Exception, other, session_scope}
use legal_viet_namese.Db.Documents.{get_internal, set_status}
use legal_viet_namese.Ingestion.Indexer.Rows.{IsIndexed, index_chunks-IsIndexed}
use legal_viet_namese.Ingestion.Indexer.{Owner, index_chunks, Collection, Point, latest}
use legal_viet_namese.Ingestion.Parsers.{ParseResult, parse_file}
use legal_viet_namese.Ingestion.Chunker.{Chunk, chunk_document, emit_pieces, emit}
use legal_viet_namese.Examples.Chunks.{chunk_tools, parser_tools}
use legal_viet_namese.Worker.Process.{
  Services, World, done, process_document, first_session, work, record_failure,
}
use legal_viet_namese.Worker.Process.Steps.{After}
use legal_viet_namese.Worker.Process.Endings.{HasRow, Ended, process_document-Ended}
use legal_viet_namese.Worker.Process.Announcing.Closing.{Follows, process_document-Follows}
use legal_viet_namese.Worker.Process.Success.{process_document-done}
use legal_viet_namese.Worker.Process.Leftover.{process_document-stuck}
use legal_viet_namese.Worker.Process.Failures.{Leaves, process_document-raised}

pub deleted :
    (doc_id : Uuid) (s s' : List (Point Text))
    → ◌≡◌ {A = Result Exception (Unit {0}) × List (Point Text)}
        (ok tt, filter (λ p. not (p.payload.doc_id == doc_id)) s)
        (ok tt, s')
    → s' ≡ filter (λ p. not (p.payload.doc_id == doc_id)) s
deleted doc_id s s' e = cc

latest-append :
    (id : Uuid) (ps qs : List (Point Text)) (old : Option (Point Text))
    → latest id (ps ++ qs) old ≡ latest id qs (latest id ps old)
latest-append id [] qs old = refl
latest-append id (p ∷ ps) qs old = latest-append id ps qs (if p.id == id then some p else old)

upserted :
    (ps s s' : List (Point Text)) (id : Uuid)
    → ◌≡◌ {A = Result Exception (Unit {0}) × List (Point Text)} (ok tt, s ++ ps) (ok tt, s')
    → latest id s' none ≡ latest id ps (latest id s none)
upserted ps s s' id e =
    ap (λ (x : Result Exception (Unit {0}) × List (Point Text)). latest id x.1 none) (sym e)
    ∙ latest-append id s ps none

abbrev collection : Collection Text
collection = record {
  Store = List (Point Text);
  points = λ s. s;
  upsert = λ ps s. (ok tt, s ++ ps);
  delete_doc = λ doc_id s. (ok tt, filter (λ p. not (p.payload.doc_id == doc_id)) s);
  points-upsert = λ ps s s' id e. upserted ps s s' id e;
  points-delete_doc = λ doc_id s s' e. deleted doc_id s s' e;
}

abbrev chunk : Chunk
chunk = record {
  index = 0;
  text = chars "article";
  n_tokens = 1;
  heading_path = none;
  page_from = none;
  page_to = none;
}

abbrev services : Services Text
services = record {
  get_object_bytes = λ key. ok (chars "pdf");
  put_object = λ key bytes. ok tt;
  parsers = parser_tools;
  chunker = chunk_tools;
  embed = λ ts. ok ts;
  publish = λ p. ok tt;
  database = λ before after. ok tt;
  is_cancelled = λ e. false;
  text_of = λ e. chars "down";
  dump = λ meta. [];
  folder = λ key. key;
  draw = λ n. n;
  now = 100;
}

abbrev offline : Services Text
offline = record services { get_object_bytes = λ key. err (other (chars "down")) }

abbrev document : Document
document = record {
  id = 3;
  tenant_id = 1;
  user_id = 2;
  title = chars "law";
  mime_type = chars "pdf";
  size_bytes = 3;
  checksum_sha256 = chars "x";
  storage_key = chars "k";
  status = pending;
  n_chunks = none;
  markdown_key = none;
  error = none;
  meta = [];
  indexed_at = none;
  times = stamped 50;
}

abbrev world : World (List (Point Text))
world = record {
  db = record {
    tenants = [];
    users = [];
    refresh_tokens = [];
    conversations = [];
    messages = [];
    documents = document ∷ [];
    document_chunks = [];
    user_facts = [];
  };
  vectors = [];
  published = [];
}

process_document-Ended_example :
    After (HasRow 3) (Ended 3) (process_document collection services 3 world)
process_document-Ended_example = process_document-Ended collection services 3 world

download_fails : (process_document collection offline 3 world).0 ≡ err (other (chars "down"))
unfolding process_document session_scope first_session get_internal set_status work record_failure
download_fails = refl

process_document-raised_example :
    Leaves collection offline 3
      (other (chars "down"))
      (process_document collection offline 3 world).1.db
process_document-raised_example =
    process_document-raised collection offline 3 world (other (chars "down")) download_fails

abbrev owner : Owner
owner = record { doc_id = 3; user_id = 2; tenant_id = 1; doc_title = chars "law" }

abbrev echo : List Text → Result Exception (List Text)
echo ts = ok ts

abbrev number : ℕ → Uuid
number n = n

indexed_rows :
    (rows : List DocumentChunk) × ((index_chunks collection echo number 100 (chunk ∷ []) owner []).0
      ≡ ok rows)
unfolding index_chunks slices
indexed_rows = (_, refl)

index_chunks-IsIndexed_example :
    IsIndexed collection echo number 100 owner chunk [] [] indexed_rows.0
      (index_chunks collection echo number 100 (chunk ∷ []) owner []).1
index_chunks-IsIndexed_example =
    index_chunks-IsIndexed collection echo number 100 owner chunk [] [] indexed_rows.0
      indexed_rows.1

abbrev leftover : World (List (Point Text))
leftover = record world {
  db = record world.db {
    document_chunks =
        record {
          id = 1;
          document_id = 3;
          chunk_index = 0;
          text = chars "article";
          n_tokens = 1;
          heading_path = none;
          page_from = none;
          page_to = none;
          qdrant_point_id = none;
          times = stamped 60;
        }
        ∷ [];
  };
}

process_document-stuck_example : (process_document collection services 3 leftover).0 ≢ ok (done 1)
process_document-stuck_example = process_document-stuck collection services 3 leftover 1 refl

abbrev raw : ParseResult
raw = record {
  pages = record { page_number = 1; text = chars "pdf" } ∷ [];
  markdown = chars "pdf";
  meta = (chars "format", chars "raw") ∷ [];
}

abbrev only : Chunk
only = record {
  index = 0;
  text = chars "pdf";
  n_tokens = 3;
  heading_path = none;
  page_from = some 1;
  page_to = some 2;
}

parsed_raw : parse_file parser_tools (chars "pdf") (chars "pdf") (chars "law") ≡ ok raw
unfolding parse_file ends_with
parsed_raw = refl

chunked_raw : chunk_document chunk_tools raw ≡ only ∷ []
unfolding chunk_document emit_pieces emit strip lstrip rstrip is_space
chunked_raw = refl

process_document-done_example : (process_document collection services 3 world).0 ≡ ok (done 1)
process_document-done_example =
    process_document-done collection services 3 (λ p. refl) (λ key b. refl) (λ before after. refl)
      (λ ts. (ts, refl, refl)) (λ s. tt) (λ ps s. tt) document world (chars "pdf") raw only [] refl
      refl refl parsed_raw chunked_raw tt

process_document-Follows_example :
    Follows collection services 3
      (λ p. refl)
      (λ p. chars "{}")
      (process_document collection services 3 world)
process_document-Follows_example =
    process_document-Follows collection services 3 (λ p. refl) (λ p. chars "{}") world refl
