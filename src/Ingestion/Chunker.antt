-- ===== src/Ingestion/Chunker.antt =====
-- src/ingestion/chunkers/base.py: a document is cut at its articles ("Điều"), and what is too long
-- is cut again.
pub mod Sections
pub mod Numbering
use legal_viet_namese.Base.{
  ℕ, suc, ◌-◌, ◌≡◌, ◌<◌, ◌≤◌, Bool, true, false, not, ◌&&◌, List, [], ◌∷◌, ◌++◌, Option, none, some,
  Text, chars, join, strip, partition_line, length, take, drop, leb, is_empty, min, max, All,
  if◌then◌else◌,
}
use legal_viet_namese.Ingestion.Parsers.{ParseResult}

pub record Chunk : Type 0 where
  pub index : ℕ
  pub text : Text
  pub n_tokens : ℕ
  pub heading_path : Option Text
  pub page_from : Option ℕ
  pub page_to : Option ℕ

-- the starts of matches: growing, and inside the text
abbrev pub IsIncreasing : ℕ → ℕ → List ℕ → Type 0
IsIncreasing low end [] = Unit {0}
IsIncreasing low end (s ∷ ss) = (low ≤ s) × (s < end) × IsIncreasing (suc s) end ss

-- The tokenizer, the recursive splitter with its sizes, and the regular expressions: `find_dieu` is
-- where `_RE_DIEU` matches, `find_chuong` where `_RE_CHUONG` does, with the matched text, `find_pages`
-- the numbers that `_RE_PAGE` captures, `remove_pages` its `sub("", …)`.
pub record ChunkTools : Type 0 where
  pub encode : Text → List ℕ
  pub split_text : Text → List Text
  pub find_dieu : Text → List ℕ
  pub find_chuong : Text → List (ℕ × Text)
  pub find_pages : Text → List ℕ
  pub remove_pages : Text → Text
  -- `finditer` goes from left to right, and an article's match is not empty
  pub find_dieu-IsIncreasing : (md : Text) → IsIncreasing 0 (length md) (find_dieu md)

-- `md[a:b]`
abbrev pub slice : ℕ → ℕ → Text → Text
slice a b md = take (b - a) (drop a md)

-- the start of the next match, or the end
abbrev pub end_of : Text → List ℕ → ℕ
end_of md [] = length md
end_of md (s ∷ ss) = s

-- `chuong_positions`
abbrev pub chuong_positions : List (ℕ × Text) → List (ℕ × Text)
chuong_positions [] = []
chuong_positions ((p, h) ∷ hs) = (p, strip h) ∷ chuong_positions hs

-- `_chuong_at`
abbrev pub chuong_at : List (ℕ × Text) → Text → ℕ → Text
chuong_at [] current pos = current
chuong_at ((p, h) ∷ hs) current pos = if leb p pos then chuong_at hs h pos else current

-- `" > ".join(p for p in (chuong, first_line) if p)`
abbrev pub heading_path : Text → Text → Text
heading_path [] line = line
heading_path (c ∷ cs) [] = c ∷ cs
heading_path (c ∷ cs) (d ∷ ds) = (c ∷ cs) ++ (chars " > " ++ (d ∷ ds))

abbrev pub full_body : Text → Text → Text
full_body [] body = strip body
full_body (p ∷ ps) body = strip ((p ∷ ps) ++ (chars "\n\n" ++ body))

-- `a if a else b`
abbrev pub or_text : Text → Text → Text
or_text [] b = b
or_text (c ∷ cs) b = c ∷ cs

-- One section, with its heading. `preamble` is empty but for the first.
abbrev pub section_of : List (ℕ × Text) → Text → ℕ → Text → Text × Text
section_of chuongs preamble start raw =
    let (line, body) = partition_line (strip raw) in
    (heading_path (chuong_at chuongs [] start) (strip line), or_text (full_body preamble body) line)

-- The sections as they stand in the text, each with its start.
abbrev pub raw_sections : Text → List ℕ → List (ℕ × Text)
raw_sections md [] = []
raw_sections md (s ∷ ss) = (s, slice s (end_of md ss) md) ∷ raw_sections md ss

abbrev pub sections_of : List (ℕ × Text) → Text → List (ℕ × Text) → List (Text × Text)
sections_of chuongs preamble [] = []
sections_of chuongs preamble ((s, raw) ∷ raws) =
    section_of chuongs preamble s raw ∷ sections_of chuongs [] raws

abbrev pub lowest : ℕ → List ℕ → ℕ
lowest a [] = a
lowest a (x ∷ xs) = min a (lowest x xs)

abbrev pub highest : ℕ → List ℕ → ℕ
highest a [] = a
highest a (x ∷ xs) = max a (highest x xs)

-- `_page_range_for`: the lowest and the highest of the pages
abbrev pub page_range : List ℕ → Option (ℕ × ℕ)
page_range [] = none
page_range (p ∷ ps) = some (lowest p ps, highest p ps)

-- what `_emit` changes: `chunks`, `idx` and `last_page`
pub record Emitted : Type 0 where
  pub chunks : List Chunk
  pub idx : ℕ
  pub last_page : Option ℕ

abbrev pub page_of : Option (ℕ × ℕ) → Option ℕ → Option ℕ × Option ℕ
page_of none last_page = (last_page, last_page)
page_of (some (a, b)) last_page = (some a, some b)

-- `heading or None`
abbrev pub heading_or_none : Text → Option Text
heading_or_none [] = none
heading_or_none (c ∷ cs) = some (c ∷ cs)

module _ (tools : ChunkTools) where
  open tools use {encode, split_text, find_dieu, find_chuong, find_pages, remove_pages}

  abbrev pub count_tokens : Text → ℕ
  count_tokens text = length (encode text)

  abbrev pub is_legal_doc : Text → Bool
  is_legal_doc md = leb 3 (length (find_dieu md)) && not (is_empty (find_chuong md))

  abbrev pub split_at : Text → List ℕ → List (Text × Text)
  split_at md [] = ([], md) ∷ []
  split_at md (s ∷ ss) =
      sections_of (chuong_positions (find_chuong md)) (strip (take s md)) (raw_sections md (s ∷ ss))

  unfoldable pub split_by_dieu : Text → List (Text × Text)
  split_by_dieu md = split_at md (find_dieu md)

  -- A chunk for a text that is not empty, with the pages of the text before the strip.
  abbrev pub add_chunk : Text → Option Text → Option ℕ × Option ℕ → Emitted → Emitted
  add_chunk [] heading (pf, pt) st = record st { last_page = pt }
  add_chunk (c ∷ cs) heading (pf, pt) st = record {
    chunks =
        st.chunks
        ++ (record {
          index = st.idx;
          text = c ∷ cs;
          n_tokens = count_tokens (c ∷ cs);
          heading_path = heading;
          page_from = pf;
          page_to = pt;
        }
            ∷ []);
    idx = suc st.idx;
    last_page = pt;
  }

  unfoldable pub emit : Text → Option Text → Emitted → Emitted
  emit text heading st =
      add_chunk (strip (strip (remove_pages text))) heading
        (page_of (page_range (find_pages text)) st.last_page) st

  -- `text` behind its heading, if there is one
  abbrev pub with_heading : Text → Text → Text
  with_heading [] text = text
  with_heading (c ∷ cs) text = (c ∷ cs) ++ (chars "\n\n" ++ text)

  unfoldable pub emit_pieces : Text → List Text → Emitted → Emitted
  emit_pieces heading [] st = st
  emit_pieces heading (piece ∷ pieces) st =
      emit_pieces heading pieces (emit (with_heading heading piece) (heading_or_none heading) st)

  abbrev pub emit_section : ℕ → Text → Text → Emitted → Emitted
  emit_section max_tokens heading body st =
      if leb (count_tokens (with_heading heading body)) max_tokens
      then emit (with_heading heading body) (heading_or_none heading) st
      else emit_pieces heading (split_text body) st

  unfoldable pub emit_sections : ℕ → List (Text × Text) → Emitted → Emitted
  emit_sections max_tokens [] st = st
  emit_sections max_tokens ((heading, body) ∷ sections) st =
      emit_sections max_tokens sections (emit_section max_tokens heading body st)

  abbrev pub nothing_emitted : Emitted
  nothing_emitted = record { chunks = []; idx = 0; last_page = none }

  -- with the default `max_tokens`
  unfoldable pub chunk_document : ParseResult → List Chunk
  chunk_document parsed =
      let md = parsed.markdown in
      if is_legal_doc md
      then (emit_sections 800 (split_by_dieu md) nothing_emitted).chunks
      else (emit_pieces [] (split_text md) nothing_emitted).chunks
