-- ===== src/Examples/Clients.antt =====
-- The clients of src/llm/client.py over the concrete stores.
use legal_viet_namese.Base.{
  some, ap, ℕ, ◌≡◌, refl, true, List, [], ◌∷◌, ◌++◌, Option, none, Text, chars, arith, map, Result,
  ok,
}
use legal_viet_namese.Llm.Lru
use legal_viet_namese.Llm.Lru.{Lru, IsValid, set-IsValid}
use legal_viet_namese.Llm.Embedding.{EmbedError, EmbeddingConfig, embed}
use legal_viet_namese.Llm.Embedding.Laws.{AreRight, embed-eq-map}
use legal_viet_namese.Llm.Completion.{Call, Client, World, call_key, complete, complete_cached, ask}
use legal_viet_namese.Llm.Completion.Laws
use legal_viet_namese.Llm.Completion.Laws.{complete-api}
use legal_viet_namese.Llm.Completion.Repeat.{complete_twice}
use legal_viet_namese.Core.Redis.{cache_get, IsPlain, IsPlain-cancel}
use legal_viet_namese.Examples.Stores.{key_values, nothing, text_codec}

abbrev full : Lru ℕ
full = record { cap = 2; d = (chars "a", 1) ∷ (chars "b", 2) ∷ [] }

full-IsValid : IsValid full
full-IsValid = record { fits = omega arith; distinct = λ k. ground arith }

set-IsValid_example : IsValid (Lru.set full (chars "c") 3)
set-IsValid_example = set-IsValid full (chars "c") 3 full-IsValid

abbrev empty : Lru Text
empty = record { cap = 8; d = [] }

-- an embedding that answers with the texts themselves, two at a time
abbrev config : EmbeddingConfig
config = record { model = chars "m"; batch_size = 2; ttl_s = 60 }

abbrev vector_of : Text → Text
vector_of t = t

abbrev echo : List Text → Result EmbedError (List Text)
echo ts = ok (map vector_of ts)

abbrev texts : List Text
texts = chars "x" ∷ chars "y" ∷ chars "x" ∷ []

abbrev sha256 : Text → Text
sha256 t = t

abbrev sha256-injective : (x y : Text) → sha256 x ≡ sha256 y → x ≡ y
sha256-injective x y e = e

embed-eq-map_example :
    (c' : Lru Text × (Text → Option Text)) × (embed key_values text_codec sha256 echo config true
        texts
        (empty, nothing)
      ≡ (ok (map vector_of texts), c'))
    × AreRight key_values text_codec sha256 sha256-injective echo config vector_of c'
embed-eq-map_example =
    embed-eq-map key_values text_codec sha256 sha256-injective echo config vector_of (λ ts. refl)
      true texts (empty, nothing) (omega arith) (record { lru = tt; store = λ key raw h. cc })

-- a model that repeats its name and the messages
abbrev answer : Text → Call → Result ℕ Text
answer model call = ok (model ++ (chars ": " ++ call.messages))

abbrev limit_dump : Option ℕ → Text → Text
limit_dump none t = 0 ∷ t
limit_dump (some n) t = 1 ∷ n ∷ t

abbrev format_dump : Option Text → Text
format_dump none = []
format_dump (some f) = 0 ∷ f

abbrev options : ℕ → Option ℕ → Option Text → Text
options t n format = t ∷ limit_dump n (format_dump format)

format_dumped : (r s : Option Text) → format_dump r ≡ format_dump s → r ≡ s
format_dumped none none e = refl
format_dumped none (some s) e = cc
format_dumped (some r) none e = cc
format_dumped (some r) (some s) e = cc

limit_dumped : (m n : Option ℕ) (t u : Text) → limit_dump m t ≡ limit_dump n u → (m ≡ n) × (t ≡ u)
limit_dumped none none t u e = (refl, cc)
limit_dumped none (some n) t u e = absurd (cc e)
limit_dumped (some m) none t u e = absurd (cc e)
limit_dumped (some m) (some n) t u e = (cc, cc)

options_dumped :
    (t u : ℕ) (m n : Option ℕ) (r s : Option Text)
    → options t m r ≡ options u n s
    → (t ≡ u) × (m ≡ n) × (r ≡ s)
options_dumped t u m n r s e =
    let rest : limit_dump m (format_dump r) ≡ limit_dump n (format_dump s) = cc in
    let x = limit_dumped m n (format_dump r) (format_dump s) rest in
    (cc, x.0, format_dumped r s x.1)

abbrev client : Client ℕ
client = record { reads = λ k. ok tt; writes = λ k. ok tt; default_model = chars "m"; ttl_s = 60 }

abbrev question : Call
question = record {
  messages = chars "q";
  model = none;
  temperature = 0;
  max_tokens = none;
  response_format = none;
  tools = none;
  tool_choice = none;
  use_cache = true;
  extra = none;
}

abbrev fresh : World Text (Text → Option Text)
fresh = record { lru = empty; store = nothing; sent = 0 }

question-IsNamed : Laws.IsNamed key_values text_codec sha256 options answer client IsPlain question
question-IsNamed = record {
  model = (refl, tt);
  messages = (refl, tt);
  no_choice = refl;
  no_extra = refl;
}

complete-api_example :
    Laws.Served key_values text_codec sha256 options answer client IsPlain IsPlain-cancel
      sha256-injective options_dumped
      (λ model a b messages t m f tools choice extra.
        ap (λ q. ok (model ++ (chars ": " ++ q))) messages)
      question
      (complete key_values text_codec sha256 options answer client question fresh)
complete-api_example =
    complete-api key_values text_codec sha256 options answer client IsPlain IsPlain-cancel
      sha256-injective options_dumped
      (λ model a b messages t m f tools choice extra.
        ap (λ q. ok (model ++ (chars ": " ++ q))) messages)
      question fresh question-IsNamed (record { lru = tt; store = λ key raw h. cc })

abbrev after : World Text (Text → Option Text)
after = (complete key_values text_codec sha256 options answer client question fresh).1

first_answer :
    complete key_values text_codec sha256 options answer client question fresh
    ≡ (ok (chars "m: q"), after)
unfolding complete complete_cached ask cache_get Lru.get
first_answer = refl

complete_twice_example :
    complete key_values text_codec sha256 options answer client question after ≡ (
      ok (chars "m: q"),
      record after {
        lru =
            (Lru.get after.lru
              (call_key key_values text_codec sha256 options answer client question)).1;
      },
    )
complete_twice_example =
    complete_twice key_values text_codec sha256 options answer client question (chars "m: q") fresh
      after (omega arith) refl first_answer
