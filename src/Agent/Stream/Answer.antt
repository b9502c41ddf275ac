-- ===== src/Agent/Stream/Answer.antt =====
-- The events of the model's stream in src/agent/graph.py.
use legal_viet_namese.Base.{
  ◌≡◌, refl, sym, ap, ◌∙◌, subst, false, ◌⊎◌, inl, inr, List, [], ◌∷◌, ◌++◌, map, All, is_empty,
  Option, none, some, Text, join, append-nil, append_assoc,
}
use legal_viet_namese.Db.Session.{Exception}
use legal_viet_namese.Agent.State.{Citation}
use legal_viet_namese.Agent.Nodes.{AgentTools, StreamChunk}
use legal_viet_namese.Agent.Stream.{
  AgentEvent, token, error, finished, Usage, update_usage, tokens_of, yield_tokens, stream_end,
  stream_chunks,
}

-- a text that is not empty
abbrev pub IsFull : Text → Type 0
IsFull t = is_empty t ≡ false

module _ (a : AgentTools) where
  open a use {scores}

  abbrev pub Event : Type 0
  Event = AgentEvent scores.Score

  -- some tokens, and one event behind them
  abbrev pub tokens_then : List Text → Event → List Event
  tokens_then ts e = map token ts ++ (e ∷ [])

  -- the answer is the text of the tokens behind `before`, or the stream broke
  pub record IsAnswer (cites : List (Citation scores.Score)) (before : List Text)
      (events : List Event) : Type 0 where
    pub tokens : List Text
    pub full : All IsFull tokens
    pub shape :
        ((usage : Option Usage) × (events
            ≡ tokens_then tokens (finished (join [] (before ++ tokens)) cites usage)))
        ⊎ ((message : Text) × (events ≡ tokens_then tokens (error message)))

  step-IsAnswer :
      (cites : List (Citation scores.Score)) (before : List Text) (content : Option Text)
      (events : List Event)
      → IsAnswer cites (before ++ tokens_of content) events
      → IsAnswer cites before (yield_tokens a (tokens_of content) events)
  step-IsAnswer cites before none events h =
      subst (λ xs. IsAnswer cites xs events) (append-nil before) h
  step-IsAnswer cites before (some []) events h =
      subst (λ xs. IsAnswer cites xs events) (append-nil before) h
  step-IsAnswer cites before (some (c ∷ cs)) events h = record {
    tokens = (c ∷ cs) ∷ h.tokens;
    full = (refl, h.full);
    shape = elim h.shape [
      | inl (usage, e) ↦ inl (
        usage,
        ap (λ es. token (c ∷ cs) ∷ es) e
            ∙ ap (λ full. tokens_then ((c ∷ cs) ∷ h.tokens) (finished (join [] full) cites usage))
                (append_assoc before ((c ∷ cs) ∷ []) h.tokens),
      )
      | inr (message, e) ↦ inr (message, ap (λ es. token (c ∷ cs) ∷ es) e)
    ];
  }

  end-IsAnswer :
      (cites : List (Citation scores.Score)) (before : List Text) (usage : Option Usage)
      (broken : Option Exception)
      → IsAnswer cites before (stream_end a cites before usage broken)
  end-IsAnswer cites before usage none = record {
    tokens = [];
    full = tt;
    shape = inl (
      usage,
      ap (λ full. tokens_then [] (finished (join [] full) cites usage)) (sym (append-nil before)),
    );
  }
  end-IsAnswer cites before usage (some e) = record {
    tokens = [];
    full = tt;
    shape = inr (a.text_of e, refl);
  }

  pub stream_chunks-IsAnswer :
      (cites : List (Citation scores.Score)) (ks : List StreamChunk) (broken : Option Exception)
      (before : List Text) (usage : Option Usage)
      → IsAnswer cites before (stream_chunks a cites ks broken before usage)
  unfolding stream_chunks
  stream_chunks-IsAnswer cites [] broken before usage = end-IsAnswer cites before usage broken
  stream_chunks-IsAnswer cites (k ∷ ks) broken before usage =
      step-IsAnswer cites before k.content _ (
        stream_chunks-IsAnswer cites ks broken (before ++ tokens_of k.content)
          (update_usage k.usage usage))
