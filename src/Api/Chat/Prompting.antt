-- ===== src/Api/Chat/Prompting.antt =====
-- What the model of src/api/routes/chat.py is asked.
use legal_viet_namese.Base.{
  ◌>>=◌, gets, map, ℕ, ◌+◌, ◌-◌, ◌<◌, ◌≡◌, ap, ◌∙◌, not, List, [], ◌∷◌, ◌++◌, append_assoc, find?,
  is_some, Option, none, some, Text, take_last, drop, length, length-append, Bool-cases, inl, inr,
  Result, ok, err, ◌>>◌, pure, arith, ◌==◌,
}
use legal_viet_namese.Db.Models.{Conversation, Message, Uuid}
use legal_viet_namese.Db.Session.{Exception}
use legal_viet_namese.Db.Conversations.{add_message, recent_messages}
use legal_viet_namese.Memory.ShortTerm.{Line, append_message, warmup_from_db}
use legal_viet_namese.Memory.ShortTerm.Window.{append-buffer, drop-append}
use legal_viet_namese.Memory.LongTerm.{RetrievedFact}
use legal_viet_namese.Agent.State.{RetrievedDoc}
use legal_viet_namese.Agent.Nodes.{AgentTools, history_of}
use legal_viet_namese.Agent.Prompts.{build_answer_messages, system_line, user_line}
use legal_viet_namese.Api.Chat.{
  ChatServices, World, Handler, agent_world, accept, warm_up, append, call, change_buffers,
  in_tables, line_of,
}

-- the last n of a list with one more behind it
take_last-snoc :
    {A : Type 0} (n : ℕ) (xs : List A) (x : A)
    → 0 < n
    → take_last n (xs ++ (x ∷ [])) ≡ drop (length xs + 1 - n) xs ++ (x ∷ [])
take_last-snoc n xs x pos =
    ap (λ k. drop (k - n) (xs ++ (x ∷ []))) (length-append xs (x ∷ []))
    ∙ drop-append (length xs + 1 - n) xs (x ∷ []) (omega arith)

module _ (a : AgentTools) (sv : ChatServices a.scores.Score) (conv_id : Uuid) (message : Text) where
  abbrev question : Line
  question = user_line a.texts message

  -- the model gets the question twice, one behind the other, whatever facts and documents it gets
  pub record IsRepeated (summary : Option Text) (w : World a sv) : Type 0 where
    pub earlier : List Line
    pub repeated :
        (facts : List (RetrievedFact a.scores.Score)) (docs : List (RetrievedDoc a.scores.Score))
        → build_answer_messages a.texts message
            (history_of a conv_id (agent_world a sv w))
            summary
            facts
            docs
          ≡ system_line a.texts summary facts docs ∷ (earlier ++ (question ∷ question ∷ []))

  pub Opened : Result Exception (Option Text × Message) × World a sv → Type 0
  Opened (ok (summary, user_msg), w) = IsRepeated summary w
  Opened (err e, w) = Unit {0}

  module _ (pos : 0 < a.settings.short_term_buffer_size) where
    abbrev size : ℕ
    size = a.settings.short_term_buffer_size

    abbrev push : Handler a sv (Unit {0})
    push =
        change_buffers a sv (append_message a.redis a.json a.buffer_key a.settings conv_id question)

    pooled :
        (summary : Option Text) (m : Message) (w : World a sv) (r : Result Exception (Unit {0}))
        → Opened ((push >> (call a sv r >> pure (summary, m))) w)
    unfolding Opened build_answer_messages
    pooled summary m w (err e) = tt
    pooled summary m w (ok u) =
        let before = history_of a conv_id (agent_world a sv w) in
        let kept = drop (length before + 1 - size) before in
        let now =
          append-buffer a.redis a.json a.buffer_key a.settings conv_id question w.buffers pos
          ∙ take_last-snoc size before question pos in
        record {
          earlier = kept;
          repeated = λ facts docs.
              ap (λ h. system_line a.texts summary facts docs ∷ (h ++ (question ∷ []))) now
              ∙ ap (λ h. system_line a.texts summary facts docs ∷ h)
                  (append_assoc kept (question ∷ []) (question ∷ []));
        }

    pushed :
        (summary : Option Text) (m : Message) (w : World a sv) (r : Result Exception (Unit {0}))
        → Opened (((call a sv r >> push) >> (call a sv sv.arq_pool >> pure (summary, m))) w)
    unfolding Opened
    pushed summary m w (err e) = tt
    pushed summary m w (ok u) = pooled summary m w sv.arq_pool

    abbrev pooling : Option Text → Message → Handler a sv (Option Text × Message)
    pooling summary m = append a sv conv_id question >> (call a sv sv.arq_pool >> pure (summary, m))

    warmed :
        (summary : Option Text) (m : Message) (w : World a sv) (buf : List Line)
        → Opened ((warm_up a sv conv_id buf >> pooling summary m) w)
    unfolding recent_messages Opened
    warmed summary m w (x ∷ xs) = pushed summary m w (sv.push_buffer question)
    warmed summary m w [] = go sv.warm_buffer
      where
        go :
            (r : Result Exception (Unit {0}))
            → Opened (
                ((do
                  msgs ← in_tables a sv (recent_messages conv_id 20)
                  call a sv r
                  change_buffers a sv (
                      warmup_from_db a.redis a.json a.buffer_key a.settings conv_id
                        (map line_of msgs)))
                    >> pooling summary m)
                  w)
        go (err e) = tt
        go (ok u) = pushed summary m _ (sv.push_buffer question)

    looked :
        (summary : Option Text) (m : Message) (w : World a sv) (r : Result Exception (Unit {0}))
        → Opened (
            (do
              call a sv r
              buf ← gets (λ v. history_of a conv_id (agent_world a sv v))
              warm_up a sv conv_id buf
              pooling summary m)
              w)
    unfolding Opened
    looked summary m w (err e) = tt
    looked summary m w (ok u) = warmed summary m w _

    -- With a buffer of a positive size, a request that is accepted leaves the question as the last
    -- line of the buffer, so that the messages the agent builds for the model from the buffer, any
    -- facts and any documents end in the question twice.
    pub accept-repeats :
        (o : Option Conversation) (w : World a sv) → Opened (accept a sv conv_id message o w)
    unfolding Opened add_message
    accept-repeats none w = tt
    accept-repeats (some c) w =
        elim (Bool-cases
          (not (is_some (find? (λ x. x.id == conv_id) w.session.work.conversations)))) [
            | inl gone ↦ rw gone tt
            | inr free ↦ rw free (looked c.summary _ _ sv.read_buffer)
          ]
