-- ===== src/Worker/Process/FreshRows.antt =====
-- Chunk rows that a job of src/worker/tasks/ingestion.py may insert.
use legal_viet_namese.Base.{
  ℕ, suc, ◌≡◌, refl, ap, false, not, ◌&&◌, ◌==◌, ltb, List, [], ◌∷◌, map, All, length, arith,
}
use legal_viet_namese.Db.Models.{DocumentChunk, Uuid}
use legal_viet_namese.Db.Documents.{has_chunk, chunks_clash}
use legal_viet_namese.Ingestion.Chunker.{Chunk}
use legal_viet_namese.Ingestion.Chunker.Numbering.{IsNumbered}

-- rows of the document, with the indices from `i` on
abbrev pub RowsFrom : Uuid → ℕ → List DocumentChunk → Type 0
RowsFrom doc_id i [] = Unit {0}
RowsFrom doc_id i (r ∷ rows) =
    (r.document_id ≡ doc_id) × (r.chunk_index ≡ i) × RowsFrom doc_id (suc i) rows

-- every row of the document has a lower index
abbrev pub Below : Uuid → ℕ → List DocumentChunk → Type 0
Below doc_id i = All (λ r. ((r.document_id == doc_id) && not (ltb r.chunk_index i)) ≡ false)

pub Below-suc :
    (doc_id : Uuid) (i : ℕ) (old : List DocumentChunk)
    → Below doc_id i old
    → Below doc_id (suc i) old
Below-suc doc_id i [] b = tt
Below-suc doc_id i (r ∷ old) b = (ground (arith, b.0), Below-suc doc_id i old b.1)

pub has_chunk-Below :
    (doc_id : Uuid) (i : ℕ) (old : List DocumentChunk)
    → Below doc_id i old
    → has_chunk doc_id i old ≡ false
has_chunk-Below doc_id i [] b = refl
has_chunk-Below doc_id i (r ∷ old) b = ground (arith, b.0, has_chunk-Below doc_id i old b.1)

-- new rows of the document clash with none
pub RowsFrom-free :
    (doc_id : Uuid) (i : ℕ) (old rows : List DocumentChunk)
    → Below doc_id i old
    → RowsFrom doc_id i rows
    → chunks_clash old rows ≡ false
RowsFrom-free doc_id i old [] b h = refl
RowsFrom-free doc_id i old (r ∷ rows) b h =
    let later =
      RowsFrom-free doc_id (suc i) (r ∷ old) rows
        (ground (arith, h.0, h.1), Below-suc doc_id i old b) h.2 in
    let free : has_chunk r.document_id r.chunk_index old ≡ false =
      rw (h.0, h.1) (has_chunk-Below doc_id i old b) in
    rw (free, later) refl

pub rows-RowsFrom :
    (doc_id : Uuid) (i : ℕ) (cs : List Chunk) (rows : List DocumentChunk)
    → IsNumbered i cs
    → map (λ (r : DocumentChunk). r.chunk_index) rows ≡ map (λ c. c.index) cs
    → map (λ (r : DocumentChunk). r.document_id) rows ≡ map (λ c. doc_id) cs
    → RowsFrom doc_id i rows × (length rows ≡ length cs)
rows-RowsFrom doc_id i [] [] n indices documents = (tt, refl)
rows-RowsFrom doc_id i [] (r ∷ rows) n indices documents = cc
rows-RowsFrom doc_id i (c ∷ cs) [] n indices documents = cc
rows-RowsFrom doc_id i (c ∷ cs) (r ∷ rows) n indices documents =
    let places : map (λ (r : DocumentChunk). r.chunk_index) rows ≡ map (λ (c : Chunk). c.index) cs =
      cc in
    let owners : map (λ (r : DocumentChunk). r.document_id) rows ≡ map (λ (c : Chunk). doc_id) cs =
      cc in
    let place : r.chunk_index ≡ i = cc in
    let owner : r.document_id ≡ doc_id = cc in
    let x = rows-RowsFrom doc_id (suc i) cs rows n.1 places owners in
    ((owner, place, x.0), ap suc x.1)
