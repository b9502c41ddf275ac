-- ===== src/Examples/Chunks.antt =====
-- A chunker with a tokenizer that counts characters, where an article begins at a "D".
use legal_viet_namese.Base.{
  ℕ, suc, ◌+◌, ◌≤◌, refl, ◌==◌, List, [], ◌∷◌, Text, chars, length, All, arith, if◌then◌else◌, err,
  ok, Bool-cases, inl, inr,
}
use legal_viet_namese.Db.Session.{other}
use legal_viet_namese.Ingestion.Parsers.{ParseResult, ParserTools}
use legal_viet_namese.Ingestion.Chunker.{ChunkTools, IsIncreasing, split_by_dieu, chunk_document}
use legal_viet_namese.Ingestion.Chunker.Sections.{IsCut, split_by_dieu-IsCut}
use legal_viet_namese.Ingestion.Chunker.Numbering.{IsNumbered, IsWhole, chunk_document-IsNumbered}

abbrev pub starts : ℕ → Text → List ℕ
starts i [] = []
starts i (c ∷ cs) = let rest = starts (suc i) cs in if c == 68 then i ∷ rest else rest

pub starts-IsIncreasing :
    (low i end : ℕ) (t : Text) → low ≤ i → i + length t ≤ end → IsIncreasing low end (starts i t)
starts-IsIncreasing low i end [] h e = tt
starts-IsIncreasing low i end (c ∷ cs) h e = elim (Bool-cases (c == 68)) [
  | inl here ↦
      rw here
        (h, omega arith, starts-IsIncreasing (suc i) (suc i) end cs (omega arith) (omega arith))
  | inr apart ↦ rw apart (starts-IsIncreasing low (suc i) end cs (omega arith) (omega arith))
]

abbrev pub chunk_tools : ChunkTools
chunk_tools = record {
  encode = λ t. t;
  split_text = λ t. t ∷ [];
  find_dieu = λ t. starts 0 t;
  find_chuong = λ t. (0, chars "C") ∷ [];
  find_pages = λ t. 2 ∷ 1 ∷ [];
  remove_pages = λ t. t;
  find_dieu-IsIncreasing = λ md. starts-IsIncreasing 0 0 (length md) md (omega arith) (omega arith);
}

abbrev pub parser_tools : ParserTools
parser_tools = record {
  open_pdf = λ bytes. err (other (chars "no pdf"));
  paragraphs = λ bytes. ok [];
  decode = λ bytes. bytes;
  collapse = λ t. t;
  lower = λ t. t;
  show = λ n. n ∷ [];
}

abbrev law : Text
law = chars "CD1 D2 D3"

split_by_dieu-IsCut_example : IsCut chunk_tools law 1 (4 ∷ 7 ∷ []) (split_by_dieu chunk_tools law)
split_by_dieu-IsCut_example = split_by_dieu-IsCut chunk_tools law 1 (4 ∷ 7 ∷ []) refl

abbrev parsed : ParseResult
parsed = record { pages = []; markdown = law; meta = [] }

chunk_document-IsNumbered_example :
    IsNumbered 0 (chunk_document chunk_tools parsed)
    × All (IsWhole chunk_tools) (chunk_document chunk_tools parsed)
chunk_document-IsNumbered_example = chunk_document-IsNumbered chunk_tools parsed
