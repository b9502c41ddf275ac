-- ===== src/Api/Chat/Consuming.antt =====
-- What the loop of src/api/routes/chat.py makes of the tokens of the agent.
use legal_viet_namese.Base.{◌≡◌, refl, ap, List, [], ◌∷◌, ◌++◌, map, Option, none, Text}
use legal_viet_namese.Agent.State.{Citation}
use legal_viet_namese.Agent.Nodes.{AgentTools}
use legal_viet_namese.Agent.Stream.{error, finished, Usage}
use legal_viet_namese.Agent.Stream.Answer.{tokens_then}
use legal_viet_namese.Api.Chat.{
  Sse, sse_token, sse_citations, sse_tool_call, sse_error, sse_done, ChatServices, Collected,
  stopped, complete, yield_first, consume,
}

-- the texts of the token events
abbrev pub spoken : {S : Type 0} → List (Sse S) → List Text
spoken [] = []
spoken (sse_token t ∷ out) = t ∷ spoken out
spoken (sse_citations cs ∷ out) = spoken out
spoken (sse_tool_call n ∷ out) = spoken out
spoken (sse_error m ∷ out) = spoken out
spoken (sse_done i cs u l ∷ out) = spoken out

module _ (S : Type 0) where
  -- a response of these tokens
  abbrev pub tokens : List Text → List (Sse S)
  tokens = map (λ t. sse_token t)

  pub spoken-tokens : (ts : List Text) → spoken (tokens ts) ≡ ts
  spoken-tokens [] = refl
  spoken-tokens (t ∷ ts) = ap (◌∷◌ t) (spoken-tokens ts)

module _ (a : AgentTools) (sv : ChatServices a.scores.Score) where
  abbrev S : Type 0
  S = a.scores.Score

  pub consume-answer :
      (ts : List Text) (answer : Text) (cs : List (Citation S)) (usage : Option Usage)
      (got : Collected S)
      → consume a sv (tokens_then a ts (finished answer cs usage)) none got
        ≡ (tokens S ts, complete (record { full_answer = answer; cites = cs; usage = usage }))
  unfolding consume
  consume-answer [] answer cs usage got = refl
  consume-answer (t ∷ ts) answer cs usage got =
      ap (yield_first a sv (sse_token t)) (consume-answer ts answer cs usage _)

  pub consume-error :
      (ts : List Text) (text : Text) (got : Collected S)
      → consume a sv (tokens_then a ts (error text)) none got
        ≡ (tokens S ts ++ (sse_error text ∷ []), stopped)
  unfolding consume
  consume-error [] text got = refl
  consume-error (t ∷ ts) text got = ap (yield_first a sv (sse_token t)) (consume-error ts text _)
