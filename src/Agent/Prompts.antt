-- ===== src/Agent/Prompts.antt =====
-- src/agent/prompts.py. `system_answer` is the constant `SYSTEM_ANSWER`, `show` is `str` of a number.
use legal_viet_namese.Base.{
  ℕ, zero, suc, ◌==◌, List, [], ◌∷◌, ◌++◌, map, Option, none, some, Text, chars, join,
  if◌then◌else◌,
}
use legal_viet_namese.Memory.ShortTerm.{Line}
use legal_viet_namese.Memory.LongTerm.{RetrievedFact}
use legal_viet_namese.Agent.State.{RetrievedDoc}

pub record PromptTexts : Type 0 where
  pub system_answer : Text
  pub show : ℕ → Text

-- a text or a number that is false counts as missing
abbrev pub some_text : Option Text → Option Text
some_text none = none
some_text (some []) = none
some_text (some (c ∷ cs)) = some (c ∷ cs)

abbrev pub some_page : Option ℕ → Option ℕ
some_page none = none
some_page (some zero) = none
some_page (some (suc n)) = some (suc n)

-- `r.get("heading_path") or r.get("doc_title") or "Tài liệu"`
abbrev pub head_of : Option Text → Option Text → Text
head_of (some heading) title = heading
head_of none (some title) = title
head_of none none = chars "Tài liệu"

module _ (t : PromptTexts) where
  abbrev pub pages_of : Option ℕ → Option ℕ → Text
  pages_of none to = []
  pages_of (some a) none = chars ", tr." ++ t.show a
  pages_of (some a) (some b) =
      if b == a
      then chars ", tr." ++ t.show a
      else chars ", tr." ++ (t.show a ++ (chars "–" ++ t.show b))

  abbrev pub part_of : {S : Type 0} → ℕ → RetrievedDoc S → Text
  part_of i r =
      chars "[#"
      ++ (t.show i
          ++ (chars "] "
              ++ (head_of (some_text r.heading_path) (some_text (some r.doc_title))
                  ++ (pages_of (some_page r.page_from) (some_page r.page_to) ++ (10 ∷ r.text)))))

  -- `enumerate(retrieved, start=i)`
  abbrev pub parts_from : {S : Type 0} → ℕ → List (RetrievedDoc S) → List Text
  parts_from i [] = []
  parts_from i (r ∷ rs) = part_of i r ∷ parts_from (suc i) rs

  unfoldable pub format_context : {S : Type 0} → List (RetrievedDoc S) → Text
  format_context [] = chars "(Không có tài liệu liên quan)"
  format_context (r ∷ rs) = join (10 ∷ 10 ∷ (chars "---" ++ (10 ∷ 10 ∷ []))) (parts_from 1 (r ∷ rs))

  abbrev pub bullet : {S : Type 0} → RetrievedFact S → Text
  bullet f = chars "- " ++ (f.key ++ (chars ": " ++ f.value))

  unfoldable pub format_facts : {S : Type 0} → List (RetrievedFact S) → Text
  format_facts [] = []
  format_facts (f ∷ fs) =
      chars "NGỮ CẢNH NGƯỜI DÙNG:" ++ (10 ∷ join (10 ∷ []) (map bullet (f ∷ fs)))

  -- `if summary:` and `if fa:`
  abbrev pub summary_part : Option Text → List Text
  summary_part none = []
  summary_part (some summary) = (10 ∷ (chars "TÓM TẮT HỘI THOẠI TRƯỚC ĐÓ:" ++ (10 ∷ summary))) ∷ []

  abbrev pub facts_part : Text → List Text
  facts_part [] = []
  facts_part (c ∷ cs) = (10 ∷ c ∷ cs) ∷ []

  abbrev pub system_line :
      {S : Type 0} → Option Text → List (RetrievedFact S) → List (RetrievedDoc S) → Line
  system_line summary facts retrieved = record {
    role = chars "system";
    content = join (10 ∷ []) (
        t.system_answer
        ∷ (summary_part (some_text summary)
            ++ (facts_part (format_facts facts)
                ++ ((10 ∷ 10 ∷ (chars "TÀI LIỆU:" ++ (10 ∷ format_context retrieved))) ∷ []))));
  }

  abbrev pub user_line : Text → Line
  user_line message = record { role = chars "user"; content = message }

  unfoldable pub build_answer_messages :
      {S : Type 0}
      → Text
      → List Line
      → Option Text
      → List (RetrievedFact S)
      → List (RetrievedDoc S)
      → List Line
  build_answer_messages user_message history summary facts retrieved =
      system_line summary facts retrieved ∷ (history ++ (user_line user_message ∷ []))
