-- ===== src/Ingestion/Parsers.antt =====
-- src/ingestion/parsers: the choice of a parser, and what each makes of the text of a file.
use legal_viet_namese.Base.{
  ℕ, suc, Bool, ◌||◌, List, [], ◌∷◌, ◌++◌, Text, chars, text_eq, join, strip, ends_with, length,
  is_empty, if◌then◌else◌, Result, ok, err,
}
use legal_viet_namese.Db.Models.{Jsonb}
use legal_viet_namese.Db.Session.{Exception}

pub record ParsedPage : Type 0 where
  pub page_number : ℕ
  pub text : Text

pub record ParseResult : Type 0 where
  pub pages : List ParsedPage
  -- with a marker before each page that has a text
  pub markdown : Text
  pub meta : Jsonb

-- what PyMuPDF reads of a file: the text of each page, and the two entries of the meta data
pub record PdfFile : Type 0 where
  pub page_texts : List Text
  pub title : Text
  pub author : Text

-- The libraries that read a file. `decode` is `data.decode("utf-8", errors="replace")`, `paragraphs`
-- the text runs of each paragraph of a DOCX file, `collapse` the `re.sub` of three line ends or more.
pub record ParserTools : Type 0 where
  pub open_pdf : Text → Result Exception PdfFile
  pub paragraphs : Text → Result Exception (List (List Text))
  pub decode : Text → Text
  pub collapse : Text → Text
  pub lower : Text → Text
  pub show : ℕ → Text

-- the first page and no other
abbrev pub one_page : Text → Text → ParseResult
one_page text format = record {
  pages = record { page_number = 1; text = text } ∷ [];
  markdown = text;
  meta = (chars "format", format) ∷ [];
}

abbrev pub join_all : List Text → Text
join_all [] = []
join_all (t ∷ ts) = t ++ join_all ts

module _ (tools : ParserTools) where
  open tools use {open_pdf, paragraphs, decode, collapse, lower, show}

  -- the loop over the pages, from page number `i` on
  abbrev pub pdf_pages : ℕ → List Text → List ParsedPage
  pdf_pages i [] = []
  pdf_pages i (t ∷ ts) = record { page_number = i; text = strip t } ∷ pdf_pages (suc i) ts

  abbrev pub page_part : ℕ → Text → Text
  page_part i text = chars "## [Page " ++ (show i ++ (chars "]\n\n" ++ text))

  abbrev pub pdf_parts : List ParsedPage → List Text
  pdf_parts [] = []
  pdf_parts (p ∷ ps) =
      if is_empty p.text then pdf_parts ps else page_part p.page_number p.text ∷ pdf_parts ps

  abbrev pub pdf_result : PdfFile → ParseResult
  pdf_result doc =
      let pages = pdf_pages 1 doc.page_texts in
      record {
        pages = pages;
        markdown = join (chars "\n\n") (pdf_parts pages);
        meta =
            (chars "format", chars "pdf")
            ∷ (chars "n_pages", show (length doc.page_texts))
            ∷ (chars "title", doc.title)
            ∷ (chars "author", doc.author)
            ∷ [];
      }

  unfoldable pub parse_pdf : Text → Result Exception ParseResult
  parse_pdf bytes = elim (open_pdf bytes) [ err e ↦ err e | ok doc ↦ ok (pdf_result doc) ]

  unfoldable pub parse_text : Text → ParseResult
  parse_text bytes = one_page (strip (decode bytes)) (chars "text")

  -- the lines of the paragraphs that have a text
  abbrev pub docx_lines : List (List Text) → List Text
  docx_lines [] = []
  docx_lines (runs ∷ ps) =
      let line = strip (join_all runs) in
      if is_empty line then docx_lines ps else line ∷ docx_lines ps

  unfoldable pub parse_docx : Text → Result Exception ParseResult
  parse_docx bytes = elim (paragraphs bytes) [
    | err e ↦ err e
    | ok ps ↦ ok (one_page (collapse (join (chars "\n\n") (docx_lines ps))) (chars "docx"))
  ]

  abbrev pub is_pdf : Text → Text → Bool
  is_pdf mime name = text_eq mime (chars "application/pdf") || ends_with (chars ".pdf") name

  abbrev pub is_text : Text → Text → Bool
  is_text mime name =
      text_eq mime (chars "text/plain")
      || (text_eq mime (chars "text/markdown")
          || (ends_with (chars ".txt") name || ends_with (chars ".md") name))

  -- the bytes, the MIME type and the name of the file
  unfoldable pub parse_file : Text → Text → Text → Result Exception ParseResult
  parse_file bytes mime filename =
      let name = lower filename in
      if is_pdf mime name
      then parse_pdf bytes
      else if is_text mime name
      then ok (parse_text bytes)
      else if ends_with (chars ".docx") name
      then parse_docx bytes
      else ok (one_page (decode bytes) (chars "raw"))
