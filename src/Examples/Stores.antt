-- ===== src/Examples/Stores.antt =====
-- Redis and JSON by concrete functions.
use legal_viet_namese.Base.{
  ℕ, zero, suc, ◌≡◌, refl, ◌∙◌, ap, ◌+◌, ◌⊎◌, inl, inr, Bool, true, not, ◌&&◌, List, [], ◌∷◌, ◌++◌,
  Option, none, some, Text, text_eq, text_eq_refl, text_eq_sound, count, filter, leb, ltb, arith,
  if◌then◌else◌, Bool-cases, length,
}
use legal_viet_namese.Cache.SortedSet.{SortedSets, Entry}
use legal_viet_namese.Memory.ShortTerm.{RedisLists, Line, last_items}
use legal_viet_namese.Core.Redis.{KeyValues, Codec}

-- Redis is a function from the keys.
abbrev Sets : Type 0
Sets = Text → List Entry

abbrev at : Text → (List Entry → List Entry) → Sets → Sets
at key f s j = if text_eq key j then f (s j) else s j

abbrev pub insert_asc : Entry → List Entry → List Entry
insert_asc e [] = e ∷ []
insert_asc e (x ∷ xs) = if ltb x.0 e.0 then x ∷ insert_asc e xs else e ∷ x ∷ xs

abbrev in_range : ℕ → ℕ → Entry → Bool
in_range lo hi e = leb lo e.0 && leb e.0 hi

abbrev named : Text → Entry → Bool
named member e = text_eq e.1 member

pub count-filter :
    (p q : Entry → Bool) (xs : List Entry) → count p (filter q xs) ≡ count (λ e. p e && q e) xs
count-filter p q [] = refl
count-filter p q (x ∷ xs) = ground (arith, count-filter p q xs)

pub count-insert_asc :
    (p : Entry → Bool) (e : Entry) (xs : List Entry)
    → count p (insert_asc e xs) ≡ (if p e then 1 else 0) + count p xs
count-insert_asc p e [] = ground arith
count-insert_asc p e (x ∷ xs) = ground (arith, count-insert_asc p e xs)

pub count-others :
    (p : Entry → Bool) (member : Text) (xs : List Entry)
    → count (named member) xs ≡ 0
    → count p (filter (λ e. not (named member e)) xs) ≡ count p xs
count-others p member [] h = refl
count-others p member (x ∷ xs) h = ground (arith, count-others p member xs)

abbrev pub sorted_sets : SortedSets
sorted_sets = record {
  Store = Sets;
  zrange = λ s key. s key;
  zcard = λ s key. length (s key);
  zremrangebyscore = λ key lo hi. at key (filter (λ e. not (in_range lo hi e)));
  zadd =
      λ key member t. at key (λ xs. insert_asc (t, member) (filter (λ e. not (named member e)) xs));
  expire = λ key n s. s;
  zcard-count = λ s key. ap (λ n. n) (count_sym (s key));
  count-zremrangebyscore =
      λ key lo hi s p. rw (text_eq_refl key) (count-filter p (λ e. not (in_range lo hi e)) (s key));
  count-zadd = λ key member t s p absent. rw (text_eq_refl key) (
      count-insert_asc p (t, member) (filter (λ e. not (named member e)) (s key))
      ∙ ap (λ n. (if p (t, member) then 1 else 0) + n) (count-others p member (s key) absent));
  zremrangebyscore_other = λ key j lo hi s other. rw other refl;
  zadd_other = λ key j member t s other. rw other refl;
  zrange-expire = λ key j n s. refl;
}
  where
    count_sym : (xs : List Entry) → length xs ≡ count (λ e. true) xs
    count_sym [] = refl
    count_sym (x ∷ xs) = omega (arith, count_sym xs)

pub found-set :
    (k j raw r : Text) (s : Text → Option Text)
    → (if text_eq k j then some raw else s j) ≡ some r
    → ((k ≡ j) × (r ≡ raw)) ⊎ (s j ≡ some r)
found-set k j raw r s h = elim (Bool-cases (text_eq k j)) [
  | inl same ↦ inl (text_eq_sound k j same, cc (rw same at h))
  | inr other ↦ inr (rw other at h)
]

abbrev pub key_values : KeyValues
key_values = record {
  Store = Text → Option Text;
  get = λ s k. s k;
  set = λ k raw ttl_s s j. if text_eq k j then some raw else s j;
  del = λ k s j. if text_eq k j then none else s j;
  get-set = λ k j raw r ttl_s s h. found-set k j raw r s h;
  get-del = λ k s. rw (text_eq_refl k) refl;
}

-- Redis lists, without the times to live
abbrev at_list : Text → (List Text → List Text) → (Text → List Text) → Text → List Text
at_list key f s j = if text_eq key j then f (s j) else s j

abbrev pub redis_lists : RedisLists
redis_lists = record {
  Store = Text → List Text;
  lrange = λ s key. s key;
  rpush = λ key v. at_list key (λ xs. xs ++ (v ∷ []));
  ltrim_last = λ key n. at_list key (last_items n);
  expire = λ key n s. s;
  delete = λ key. at_list key (λ xs. []);
  lrange-rpush = λ key v s. rw (text_eq_refl key) refl;
  lrange-ltrim = λ key n s. rw (text_eq_refl key) refl;
  lrange-expire = λ key n s. refl;
  lrange-delete = λ key s. rw (text_eq_refl key) refl;
}

abbrev pub nothing : Text → Option Text
nothing k = none

abbrev pub text_codec : Codec Text
text_codec = record { dumps = λ t. t; loads = λ t. t; loads-dumps = λ t. refl }

-- a list of texts: each character one higher, and a 0 behind each text
abbrev push : ℕ → List Text → List Text
push c [] = (c ∷ []) ∷ []
push c (t ∷ ts) = (c ∷ t) ∷ ts

abbrev dump_text : Text → Text → Text
dump_text [] rest = 0 ∷ rest
dump_text (c ∷ cs) rest = suc c ∷ dump_text cs rest

abbrev dump_texts : List Text → Text
dump_texts [] = []
dump_texts (t ∷ ts) = dump_text t (dump_texts ts)

abbrev load_texts : Text → List Text
load_texts [] = []
load_texts (zero ∷ raw) = [] ∷ load_texts raw
load_texts (suc c ∷ raw) = push c (load_texts raw)

load_texts-dump_text : (t rest : Text) → load_texts (dump_text t rest) ≡ t ∷ load_texts rest
load_texts-dump_text [] rest = refl
load_texts-dump_text (c ∷ cs) rest = rw (load_texts-dump_text cs rest) refl

pub load_texts-dump_texts : (ts : List Text) → load_texts (dump_texts ts) ≡ ts
load_texts-dump_texts [] = refl
load_texts-dump_texts (t ∷ ts) =
    load_texts-dump_text t (dump_texts ts) ∙ ap (◌∷◌ t) (load_texts-dump_texts ts)

abbrev pub texts_codec : Codec (List Text)
texts_codec = record { dumps = dump_texts; loads = load_texts; loads-dumps = load_texts-dump_texts }

abbrev dump_pairs : List (ℕ × ℕ) → Text
dump_pairs [] = []
dump_pairs ((i, sc) ∷ d) = i ∷ sc ∷ dump_pairs d

abbrev load_pairs : Text → List (ℕ × ℕ)
load_pairs [] = []
load_pairs (i ∷ []) = []
load_pairs (i ∷ sc ∷ raw) = (i, sc) ∷ load_pairs raw

pub load_pairs-dump_pairs : (d : List (ℕ × ℕ)) → load_pairs (dump_pairs d) ≡ d
load_pairs-dump_pairs [] = refl
load_pairs-dump_pairs ((i, sc) ∷ d) = ap (◌∷◌ (i, sc)) (load_pairs-dump_pairs d)

abbrev pub pairs_codec : Codec (List (ℕ × ℕ))
pairs_codec = record { dumps = dump_pairs; loads = load_pairs; loads-dumps = load_pairs-dump_pairs }

-- the role and the content, as two texts
abbrev dump_line : Line → Text
dump_line m = dump_text m.role m.content

abbrev load_line : Text → Line
load_line [] = record { role = []; content = [] }
load_line (zero ∷ raw) = record { role = []; content = raw }
load_line (suc c ∷ raw) = let m = load_line raw in record m { role = c ∷ m.role }

pub load_line-dump_text :
    (role content : Text)
    → load_line (dump_text role content) ≡ record { role = role; content = content }
load_line-dump_text [] content = refl
load_line-dump_text (c ∷ cs) content = rw (load_line-dump_text cs content) refl

abbrev pub line_codec : Codec Line
line_codec = record {
  dumps = dump_line;
  loads = load_line;
  loads-dumps = λ m. load_line-dump_text m.role m.content;
}
