-- ===== src/Ingestion/Chunker/Numbering.antt =====
-- The chunks that `chunk_document` of src/ingestion/chunkers/base.py emits.
use legal_viet_namese.Base.{
  ℕ, suc, ◌+◌, ◌≤◌, ◌≡◌, refl, false, List, [], ◌∷◌, ◌++◌, Option, none, some, Text, length,
  length-append, is_empty, leb, All, All-append, arith, Bool-cases, inl, inr,
}
use legal_viet_namese.Ingestion.Parsers.{ParseResult}
use legal_viet_namese.Ingestion.Chunker.{
  Chunk, ChunkTools, Emitted, lowest, highest, page_range, page_of, count_tokens, add_chunk, emit,
  emit_pieces, emit_section, emit_sections, nothing_emitted, chunk_document, split_by_dieu,
  is_legal_doc, with_heading,
}

-- the indices count from `i` on
abbrev pub IsNumbered : ℕ → List Chunk → Type 0
IsNumbered i [] = Unit {0}
IsNumbered i (c ∷ cs) = (c.index ≡ i) × IsNumbered (suc i) cs

-- no pages, or a first and a last one in order
abbrev pub IsRange : Option ℕ → Option ℕ → Type 0
IsRange none none = Unit {0}
IsRange (some a) (some b) = a ≤ b
IsRange none (some b) = ⊥
IsRange (some a) none = ⊥

module _ (tools : ChunkTools) where
  -- a text, its number of tokens, and its pages
  pub record IsWhole (c : Chunk) : Type 0 where
    pub text : is_empty c.text ≡ false
    pub tokens : c.n_tokens ≡ count_tokens tools c.text
    pub pages : IsRange c.page_from c.page_to

  record IsGood (st : Emitted) : Type 0 where
    counted : st.idx ≡ length st.chunks
    numbered : IsNumbered 0 st.chunks
    whole : All IsWhole st.chunks

  IsNumbered-snoc :
      (i : ℕ) (cs : List Chunk) (c : Chunk)
      → IsNumbered i cs
      → c.index ≡ i + length cs
      → IsNumbered i (cs ++ (c ∷ []))
  IsNumbered-snoc i [] c n e = (omega (arith, e), tt)
  IsNumbered-snoc i (d ∷ cs) c n e = (n.0, IsNumbered-snoc (suc i) cs c n.1 (omega (arith, e)))

  lowest-le : (a : ℕ) (xs : List ℕ) → lowest a xs ≤ a
  lowest-le a [] = omega arith
  lowest-le a (x ∷ xs) = omega arith

  le-highest : (a : ℕ) (xs : List ℕ) → a ≤ highest a xs
  le-highest a [] = omega arith
  le-highest a (x ∷ xs) = omega arith

  IsRange-same : (o : Option ℕ) → IsRange o o
  IsRange-same none = tt
  IsRange-same (some a) = omega arith

  page_of-IsRange :
      (ps : List ℕ) (last : Option ℕ)
      → IsRange (page_of (page_range ps) last).0 (page_of (page_range ps) last).1
  page_of-IsRange [] last = IsRange-same last
  page_of-IsRange (p ∷ ps) last = omega (arith, lowest-le p ps, le-highest p ps)

  add_chunk-IsGood :
      (text : Text) (heading : Option Text) (pages : Option ℕ × Option ℕ) (st : Emitted)
      → IsRange pages.0 pages.1
      → IsGood st
      → IsGood (add_chunk tools text heading pages st)
  add_chunk-IsGood [] heading pages st r g = record {
    counted = g.counted;
    numbered = g.numbered;
    whole = g.whole;
  }
  add_chunk-IsGood (c ∷ cs) heading pages st r g = record {
    counted = omega (arith, g.counted, length-append st.chunks);
    numbered = IsNumbered-snoc 0 st.chunks _ g.numbered (omega (arith, g.counted));
    whole =
        All-append IsWhole st.chunks _ g.whole
          (record { text = refl; tokens = refl; pages = r }, tt);
  }

  emit-IsGood :
      (text : Text) (heading : Option Text) (st : Emitted)
      → IsGood st
      → IsGood (emit tools text heading st)
  unfolding emit
  emit-IsGood text heading st g =
      add_chunk-IsGood _ heading _ st (page_of-IsRange (tools.find_pages text) st.last_page) g

  emit_pieces-IsGood :
      (heading : Text) (pieces : List Text) (st : Emitted)
      → IsGood st
      → IsGood (emit_pieces tools heading pieces st)
  unfolding emit_pieces
  emit_pieces-IsGood heading [] st g = g
  emit_pieces-IsGood heading (piece ∷ pieces) st g =
      emit_pieces-IsGood heading pieces _ (emit-IsGood _ _ st g)

  emit_section-IsGood :
      (max_tokens : ℕ) (heading body : Text) (st : Emitted)
      → IsGood st
      → IsGood (emit_section tools max_tokens heading body st)
  emit_section-IsGood max_tokens heading body st g =
      elim (Bool-cases (leb (count_tokens tools (with_heading tools heading body)) max_tokens)) [
        | inl fits ↦ rw fits (emit-IsGood _ _ st g)
        | inr long ↦ rw long (emit_pieces-IsGood heading (tools.split_text body) st g)
      ]

  emit_sections-IsGood :
      (max_tokens : ℕ) (sections : List (Text × Text)) (st : Emitted)
      → IsGood st
      → IsGood (emit_sections tools max_tokens sections st)
  unfolding emit_sections
  emit_sections-IsGood max_tokens [] st g = g
  emit_sections-IsGood max_tokens ((heading, body) ∷ sections) st g =
      emit_sections-IsGood max_tokens sections _ (emit_section-IsGood max_tokens heading body st g)

  nothing-IsGood : IsGood (nothing_emitted tools)
  nothing-IsGood = record { counted = refl; numbered = tt; whole = tt }

  -- The chunks of a document are numbered from 0 on without a gap; each has a text that is not
  -- empty, the number of its tokens, and either no page or a first and a last page in order.
  pub chunk_document-IsNumbered :
      (parsed : ParseResult)
      → IsNumbered 0 (chunk_document tools parsed) × All IsWhole (chunk_document tools parsed)
  unfolding chunk_document
  chunk_document-IsNumbered parsed = elim (Bool-cases (is_legal_doc tools parsed.markdown)) [
    | inl legal ↦
        let g = emit_sections-IsGood 800 (split_by_dieu tools parsed.markdown) _ nothing-IsGood in
        rw legal (g.numbered, g.whole)
    | inr other ↦
        let g = emit_pieces-IsGood [] (tools.split_text parsed.markdown) _ nothing-IsGood in
        rw other (g.numbered, g.whole)
  ]
