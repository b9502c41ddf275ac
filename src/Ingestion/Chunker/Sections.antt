-- ===== src/Ingestion/Chunker/Sections.antt =====
-- The slices from which `_split_by_dieu` of src/ingestion/chunkers/base.py makes its sections.
use mathlib.Core.List.{append-nil}
use legal_viet_namese.Base.{
  ◌<◌, ◌≢◌, ◌⊎◌, inl, inr, ◌==◌, false, All, Bool-cases, leb, chars, join, partition_line,
  length-take, ==_iff, ℕ, suc, ◌+◌, ◌-◌, ◌≤◌, ◌≡◌, refl, sym, ap, subst, ◌∙◌, List, [], ◌∷◌, ◌++◌,
  map, concat, Text, strip, length, take, drop, take-length, length-drop, drop-drop,
  take-append-drop, arith,
}
use legal_viet_namese.Ingestion.Chunker.{
  ChunkTools, chuong_at, heading_path, full_body, or_text, section_of, IsIncreasing, slice,
  raw_sections, sections_of, chuong_positions, split_by_dieu,
}

slice_end : (s : ℕ) (md : Text) → slice s (length md) md ≡ drop s md
slice_end s md = ap (λ n. take n (drop s md)) (sym (length-drop s md)) ∙ take-length (drop s md)

slice-drop : (s e : ℕ) (md : Text) → s ≤ e → slice s e md ++ drop e md ≡ drop s md
slice-drop s e md h =
    let there : ◌≡◌ {A = ℕ} e (s + (e - s)) = omega arith in
    ap (λ n. slice s e md ++ drop n md) there
    ∙ ap (λ t. slice s e md ++ t) (sym (drop-drop (e - s) s md))
    ∙ take-append-drop (e - s) (drop s md)

concat-raw_sections :
    (md : Text) (low s : ℕ) (ss : List ℕ)
    → IsIncreasing low (length md) (s ∷ ss)
    → concat (map (λ r. r.1) (raw_sections md (s ∷ ss))) ≡ drop s md
concat-raw_sections md low s [] h = append-nil (slice s (length md) md) ∙ slice_end s md
concat-raw_sections md low s (e ∷ ss) h =
    ap (λ t. slice s e md ++ t) (concat-raw_sections md (suc s) e ss h.2)
    ∙ slice-drop s e md (omega (arith, h.2.0))

starts-raw_sections : (md : Text) (ss : List ℕ) → map (λ r. r.0) (raw_sections md ss) ≡ ss
starts-raw_sections md [] = refl
starts-raw_sections md (s ∷ ss) = ap (◌∷◌ s) (starts-raw_sections md ss)

-- the lengths from one start to the next, and from the last to the end
abbrev pub spans : ℕ → List ℕ → List ℕ
spans end [] = []
spans end (s ∷ []) = (end - s) ∷ []
spans end (s ∷ t ∷ ss) = (t - s) ∷ spans end (t ∷ ss)

length-slice : (s e : ℕ) (md : Text) → e ≤ length md → length (slice s e md) ≡ e - s
length-slice s e md h = ground (arith, length-take (e - s) (drop s md), length-drop s md)

spans-raw_sections :
    (md : Text) (low : ℕ) (ss : List ℕ)
    → IsIncreasing low (length md) ss
    → map (λ r. length r.1) (raw_sections md ss) ≡ spans (length md) ss
spans-raw_sections md low [] h = refl
spans-raw_sections md low (s ∷ []) h =
    ap (λ n. n ∷ []) (length-slice s (length md) md (omega arith))
spans-raw_sections md low (s ∷ e ∷ ss) h =
    let shown : length (slice s e md) ≡ e - s = length-slice s e md (omega (arith, h.2.1)) in
    let rest = spans-raw_sections md (suc s) (e ∷ ss) h.2 in cc

-- the title of the last of some chapters
abbrev pub last_title : Text → List (ℕ × Text) → Text
last_title title [] = title
last_title title (c ∷ cs) = last_title c.1 cs

abbrev pub Beyond : ℕ → List (ℕ × Text) → Type 0
Beyond start [] = Unit {0}
Beyond start (c ∷ cs) = start < c.0

-- the texts that are not empty
abbrev pub filled : List Text → List Text
filled [] = []
filled ([] ∷ ts) = filled ts
filled ((c ∷ cs) ∷ ts) = (c ∷ cs) ∷ filled ts

-- what stands under the heading, with the preamble in front if there is one
abbrev pub content : Text → Text → Text
content [] rest = strip rest
content (p ∷ ps) rest = strip ((p ∷ ps) ++ (chars "\n\n" ++ rest))

-- A section of an article that begins at `start`: the heading joins the title of the chapter, which is
-- the last that begins no later, and the article's first line; the body is what follows the line, or
-- the line itself if nothing does.
pub record IsSection (chapters : List (ℕ × Text)) (preamble : Text) (start : ℕ) (raw : Text)
    (made : Text × Text) : Type 0 where
  pub line : Text
  pub rest : Text
  pub parted : (strip raw ≡ line ++ (b'\n' ∷ rest)) ⊎ ((strip raw ≡ line) × (rest ≡ []))
  pub one_line : All (λ c. (c == b'\n') ≡ false) line
  pub before : List (ℕ × Text)
  pub after : List (ℕ × Text)
  pub in_order : chapters ≡ before ++ after
  pub reached : All (λ c. c.0 ≤ start) before
  pub beyond : Beyond start after
  pub heading : made.0 ≡ join (chars " > ") (filled (last_title [] before ∷ strip line ∷ []))
  pub body :
      ((content preamble rest ≡ []) × (made.1 ≡ line))
      ⊎ ((content preamble rest ≢ []) × (made.1 ≡ content preamble rest))

record IsReached (chapters : List (ℕ × Text)) (current : Text) (start : ℕ) : Type 0 where
  before : List (ℕ × Text)
  after : List (ℕ × Text)
  in_order : chapters ≡ before ++ after
  reached : All (λ c. c.0 ≤ start) before
  beyond : Beyond start after
  title : chuong_at chapters current start ≡ last_title current before

chuong_at-IsReached :
    (chapters : List (ℕ × Text)) (current : Text) (start : ℕ) → IsReached chapters current start
chuong_at-IsReached [] current start = record {
  before = [];
  after = [];
  in_order = refl;
  reached = tt;
  beyond = tt;
  title = refl;
}
chuong_at-IsReached ((p, h) ∷ hs) current start = elim (Bool-cases (leb p start)) [
  | inl up_to ↦
      let x = chuong_at-IsReached hs h start in
      record {
        before = (p, h) ∷ x.before;
        after = x.after;
        in_order = ap (◌∷◌ (p, h)) x.in_order;
        reached = (ground arith, x.reached);
        beyond = x.beyond;
        title = rw up_to x.title;
      }
  | inr later ↦ record {
    before = [];
    after = (p, h) ∷ hs;
    in_order = refl;
    reached = tt;
    beyond = ground arith;
    title = rw later refl;
  }
]

heading_path-join :
    (title line : Text) → heading_path title line ≡ join (chars " > ") (filled (title ∷ line ∷ []))
heading_path-join [] [] = refl
heading_path-join [] (d ∷ ds) = refl
heading_path-join (c ∷ cs) [] = refl
heading_path-join (c ∷ cs) (d ∷ ds) = refl

full_body-content : (preamble rest : Text) → full_body preamble rest ≡ content preamble rest
full_body-content [] rest = refl
full_body-content (p ∷ ps) rest = refl

or_text-body :
    (t line : Text) → ((t ≡ []) × (or_text t line ≡ line)) ⊎ ((t ≢ []) × (or_text t line ≡ t))
or_text-body [] line = inl (refl, refl)
or_text-body (c ∷ cs) line = inr (λ e. cc e, refl)

record IsParted (t : Text) (parts : Text × Text) : Type 0 where
  parted : (t ≡ parts.0 ++ (b'\n' ∷ parts.1)) ⊎ ((t ≡ parts.0) × (parts.1 ≡ []))
  one_line : All (λ c. (c == b'\n') ≡ false) parts.0

partition_line-IsParted : (t : Text) → IsParted t (partition_line t)
unfolding partition_line
partition_line-IsParted [] = record { parted = inr (refl, refl); one_line = tt }
partition_line-IsParted (c ∷ cs) =
    let y = partition_line-IsParted cs in
    elim (Bool-cases (c == b'\n')) [
      | inl end ↦
          let same : c ≡ b'\n' = (==_iff c b'\n').0 end in
          rw end (record { parted = inl (ap (λ x. x ∷ cs) same); one_line = tt })
      | inr other ↦ rw other (record {
        parted = elim y.parted [
          | inl e ↦ inl (ap (◌∷◌ c) e)
          | inr (e, none_) ↦ inr (ap (◌∷◌ c) e, none_)
        ];
        one_line = (other, y.one_line);
      })
    ]

section_of-IsSection :
    (chapters : List (ℕ × Text)) (preamble : Text) (start : ℕ) (raw : Text)
    → IsSection chapters preamble start raw (section_of chapters preamble start raw)
section_of-IsSection chapters preamble start raw =
    let x = chuong_at-IsReached chapters [] start in
    let y = partition_line-IsParted (strip raw) in
    let parts = partition_line (strip raw) in
    record {
      line = parts.0;
      rest = parts.1;
      parted = y.parted;
      one_line = y.one_line;
      before = x.before;
      after = x.after;
      in_order = x.in_order;
      reached = x.reached;
      beyond = x.beyond;
      heading =
          ap (λ t. heading_path t (strip parts.0)) x.title ∙ heading_path-join _ (strip parts.0);
      body =
          subst
            (λ t.
              ((content preamble parts.1 ≡ []) × (or_text t parts.0 ≡ parts.0))
              ⊎ ((content preamble parts.1 ≢ []) × (or_text t parts.0 ≡ content preamble parts.1)))
            (sym (full_body-content preamble parts.1)) (or_text-body _ parts.0);
    }

-- sections for slices, in order; only the first has the preamble
abbrev pub AreSections : List (ℕ × Text) → Text → List (ℕ × Text) → List (Text × Text) → Type 0
AreSections chapters preamble [] [] = Unit {0}
AreSections chapters preamble [] (x ∷ xs) = ⊥
AreSections chapters preamble (r ∷ rs) [] = ⊥
AreSections chapters preamble (r ∷ rs) (x ∷ xs) =
    IsSection chapters preamble r.0 r.1 x × AreSections chapters [] rs xs

sections_of-AreSections :
    (chapters : List (ℕ × Text)) (preamble : Text) (raws : List (ℕ × Text))
    → AreSections chapters preamble raws (sections_of chapters preamble raws)
sections_of-AreSections chapters preamble [] = tt
sections_of-AreSections chapters preamble ((s, raw) ∷ raws) =
    (section_of-IsSection chapters preamble s raw, sections_of-AreSections chapters [] raws)

chuong_positions-map : (cs : List (ℕ × Text)) → chuong_positions cs ≡ map (λ c. (c.0, strip c.1)) cs
chuong_positions-map [] = refl
chuong_positions-map ((p, h) ∷ cs) = ap (◌∷◌ (p, strip h)) (chuong_positions-map cs)

module _ (tools : ChunkTools) where
  -- what a document with articles is cut into: one slice for each article, from its start to the next
  pub record IsCut (md : Text) (s : ℕ) (ss : List ℕ) (sections : List (Text × Text)) : Type 0 where
    pub raws : List (ℕ × Text)
    pub starts : map (λ r. r.0) raws ≡ s ∷ ss
    pub lengths : map (λ r. length r.1) raws ≡ spans (length md) (s ∷ ss)
    pub whole : take s md ++ concat (map (λ r. r.1) raws) ≡ md
    pub made :
        AreSections
          (map (λ c. (c.0, strip c.1)) (tools.find_chuong md))
          (strip (take s md))
          raws
          sections

  -- A document with articles is cut into slices without loss: each begins at an article and is as long
  -- as from there to the next article or the end, and put behind the text before the first article
  -- they are the document. The sections are made from the slices, one for one: a heading of the title
  -- of the last chapter that begins no later than the article, and of the article's first line; and
  -- what follows that line, or the line if nothing does, with the text before the first article in
  -- front of the first.
  pub split_by_dieu-IsCut :
      (md : Text) (s : ℕ) (ss : List ℕ)
      → tools.find_dieu md ≡ s ∷ ss
      → IsCut md s ss (split_by_dieu tools md)
  unfolding split_by_dieu
  split_by_dieu-IsCut md s ss found =
      let growing : IsIncreasing 0 (length md) (s ∷ ss) =
        subst (IsIncreasing 0 (length md)) found (tools.find_dieu-IsIncreasing md) in
      let raws = raw_sections md (s ∷ ss) in
      rw found (record {
        raws = raws;
        starts = starts-raw_sections md (s ∷ ss);
        lengths = spans-raw_sections md 0 (s ∷ ss) growing;
        whole =
            ap (λ t. take s md ++ t) (concat-raw_sections md 0 s ss growing)
            ∙ take-append-drop s md;
        made =
            subst
              (λ cs.
                AreSections cs (strip (take s md)) raws
                  (sections_of (chuong_positions (tools.find_chuong md)) (strip (take s md)) raws))
              (chuong_positions-map (tools.find_chuong md))
              (sections_of-AreSections (chuong_positions (tools.find_chuong md)) (strip (take s md))
                raws);
      })
