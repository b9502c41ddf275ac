-- ===== src/Api/Conversations/Ownership.antt =====
-- Whose conversations the handlers of src/api/routes/conversations.py reach.
use mathlib.Core.List.{mem-cons_self, mem-cons_of_mem}
use legal_viet_namese.Base.{
  All, All-take, Mem, map, take, subst, sort_desc, sort_desc-All, ltb, Bool-cases, ◌≡◌, refl, false,
  ◌==◌, List, [], ◌∷◌, some, find?, filter, update_where, ok, arith, inl, inr, Option-cases, ==_iff,
  &&-eq-true, find?-holds,
}
use legal_viet_namese.Db.Models.{Db, Conversation, Message, Uuid, Moment}
use legal_viet_namese.Db.Session.{get_session}
use legal_viet_namese.Db.Conversations
use legal_viet_namese.Db.Conversations.{owned, messages_of}
use legal_viet_namese.Api.Conversations.{
  MessageOut, message_out, list_messages, archive_conversation,
}

-- the conversations of a user
abbrev pub of_user : Uuid → Db → List Conversation
of_user user_id db = filter (λ c. c.user_id == user_id) db.conversations

kept_others :
    (conv_id user_id other : Uuid) (f : Conversation → Conversation) (cs : List Conversation)
    → (user_id == other) ≡ false
    → ((c : Conversation) → (f c).user_id ≡ c.user_id)
    → filter (λ c. c.user_id == other) (update_where (owned conv_id user_id) f cs)
      ≡ filter (λ c. c.user_id == other) cs
kept_others conv_id user_id other f [] apart same = refl
kept_others conv_id user_id other f (c ∷ cs) apart same =
    ground (arith, kept_others conv_id user_id other f cs apart same, same c)

-- Archiving leaves the stored conversations of every other user as they were, and is never refused.
pub archive-others :
    (conv_id user_id tenant_id other : Uuid) (now : Moment) (db : Db)
    → (user_id == other) ≡ false
    → ((get_session (archive_conversation conv_id (user_id, tenant_id) now) db).0 ≡ ok tt)
      × (of_user other (get_session (archive_conversation conv_id (user_id, tenant_id) now) db).1
          ≡ of_user other db)
unfolding get_session archive_conversation Conversations.archive
archive-others conv_id user_id tenant_id other now db apart =
    (refl, kept_others conv_id user_id other _ db.conversations apart (λ c. refl))

-- what a shown message is: a stored one of the conversation
abbrev pub Shows : Db → Uuid → MessageOut → Type 0
Shows db conv_id o =
    (m : Message) × Mem m db.messages
    × (m.conversation_id ≡ conv_id)
    × (o.id ≡ m.id)
    × (o.role ≡ m.role)
    × (o.content ≡ m.content)

abbrev Belongs : Db → Uuid → Message → Type 0
Belongs db conv_id m = Mem m db.messages × (m.conversation_id ≡ conv_id)

filter-Belongs :
    (db : Db) (conv_id : Uuid) (ms : List Message)
    → ((m : Message) → Mem m ms → Mem m db.messages)
    → All (Belongs db conv_id) (filter (λ m. m.conversation_id == conv_id) ms)
filter-Belongs db conv_id [] inside = tt
filter-Belongs db conv_id (m ∷ ms) inside =
    let rest = filter-Belongs db conv_id ms (λ x k. inside x (mem-cons_of_mem m k)) in
    elim (Bool-cases (m.conversation_id == conv_id)) [
      | inl its ↦ rw its ((inside m mem-cons_self, (==_iff m.conversation_id conv_id).0 its), rest)
      | inr other ↦ rw other rest
    ]

map-Shows :
    (db : Db) (conv_id : Uuid) (ms : List Message)
    → All (Belongs db conv_id) ms
    → All (Shows db conv_id) (map message_out ms)
map-Shows db conv_id [] a = tt
map-Shows db conv_id (m ∷ ms) a = ((m, a.0.0, a.0.1, refl, refl, refl), map-Shows db conv_id ms a.1)

-- A user who is shown the messages of a conversation owns the conversation, and each message that is
-- shown is a stored one of this conversation, with its id, role and content.
pub list_messages-owned :
    (conv_id user_id tenant_id : Uuid) (db : Db) (out : List MessageOut)
    → (get_session (list_messages conv_id (user_id, tenant_id)) db).0 ≡ ok out
    → (c : Conversation) × (find? (owned conv_id user_id) db.conversations ≡ some c)
      × (c.id ≡ conv_id)
      × (c.user_id ≡ user_id)
      × All (Shows db conv_id) out
unfolding get_session list_messages Conversations.get Conversations.messages
list_messages-owned conv_id user_id tenant_id db out h =
    elim (Option-cases (find? (owned conv_id user_id) db.conversations)) [
      | inl gone ↦ cc (rw gone at h)
      | inr (c, found) ↦
          let (id_met, user_met) =
            &&-eq-true (c.id == conv_id) (c.user_id == user_id)
              (find?-holds (owned conv_id user_id) db.conversations c found) in
          let sorted =
            sort_desc-All (λ a b. ltb b.times.created_at a.times.created_at) (Belongs db conv_id) _
              (filter-Belongs db conv_id db.messages (λ m k. k)) in
          let shown = map-Shows db conv_id _ (All-take (Belongs db conv_id) 200 _ sorted) in
          let same : map message_out (
                take 200 (
                  sort_desc (λ a b. ltb b.times.created_at a.times.created_at)
                    (messages_of conv_id db)))
              ≡ out =
            cc (rw found at h) in
          (
            c,
            found,
            (==_iff c.id conv_id).0 id_met,
            (==_iff c.user_id user_id).0 user_met,
            subst (All (Shows db conv_id)) same shown,
          )
    ]
