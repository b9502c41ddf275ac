-- ===== src/Db/Conversations.antt =====
-- `ConversationRepo` of src/db/repositories/conversation.py and `UserFactRepo` of memory.py.
use legal_viet_namese.Base.{
  ℕ, suc, Bool, true, false, not, ◌&&◌, ◌==◌, List, [], ◌∷◌, ◌++◌, Option, none, some, Text, find?,
  filter, is_some, update_where, take, drop, sort_desc, ltb, if◌then◌else◌, ok,
}
use legal_viet_namese.Db.Models.{
  Db, Conversation, Message, UserFact, Role, Uuid, Moment, Jsonb, stamped, touched,
}
use legal_viet_namese.Db.Session.{Action, select, change, insert}

unfoldable pub create : Uuid → Uuid → Text → Uuid → Moment → Action Conversation
create tenant_id user_id title id now s =
    let c : Conversation = record {
      id = id;
      tenant_id = tenant_id;
      user_id = user_id;
      title = title;
      summary = none;
      message_count = 0;
      archived = false;
      last_message_at = none;
      times = stamped now;
    } in
    (ok c, record s { work = record s.work { conversations = s.work.conversations ++ (c ∷ []) } })

abbrev pub owned : Uuid → Uuid → Conversation → Bool
owned conv_id user_id c = (c.id == conv_id) && (c.user_id == user_id)

unfoldable pub get : Uuid → Uuid → Action (Option Conversation)
get conv_id user_id = select (λ db. find? (owned conv_id user_id) db.conversations)

abbrev pub is_listed : Uuid → Conversation → Bool
is_listed user_id c = (c.user_id == user_id) && not c.archived

-- Rows of one moment keep the order of insertion.
unfoldable pub list_for_user : Uuid → ℕ → ℕ → Action (List Conversation)
list_for_user user_id limit offset = select λ db. take limit (
    drop offset (
      sort_desc (λ a b. ltb a.times.updated_at b.times.updated_at)
        (filter (is_listed user_id) db.conversations)))

abbrev pub update_conversations :
    (Conversation → Bool) → (Conversation → Conversation) → Action (Unit {0})
update_conversations p f =
    change λ db. record db { conversations = update_where p f db.conversations }

unfoldable pub archive : Uuid → Uuid → Moment → Action (Unit {0})
archive conv_id user_id now =
    update_conversations (owned conv_id user_id)
      (λ c. record c { archived = true; times = touched now c.times })

unfoldable pub rename : Uuid → Uuid → Text → Moment → Action (Unit {0})
rename conv_id user_id title now =
    update_conversations (owned conv_id user_id)
      (λ c. record c { title = take 255 title; times = touched now c.times })

unfoldable pub set_summary : Uuid → Text → Moment → Action (Unit {0})
set_summary conv_id summary now =
    update_conversations (λ c. c.id == conv_id)
      (λ c. record c { summary = some summary; times = touched now c.times })

-- the values of one more message
pub record NewMessage : Type 0 where
  pub conversation_id : Uuid
  pub role : Role
  pub content : Text
  pub meta : Jsonb
  pub tokens_in : Option ℕ
  pub tokens_out : Option ℕ
  pub latency_ms : Option ℕ

abbrev pub message_of : NewMessage → Uuid → Moment → Message
message_of m id now = record {
  id = id;
  conversation_id = m.conversation_id;
  role = m.role;
  content = m.content;
  meta = m.meta;
  tokens_in = m.tokens_in;
  tokens_out = m.tokens_out;
  latency_ms = m.latency_ms;
  times = stamped now;
}

-- the counters of the conversation
abbrev pub counted : Moment → Conversation → Conversation
counted now c = record c {
  message_count = suc c.message_count;
  last_message_at = some now;
  times = touched now c.times;
}

-- The row of the conversation is changed if there is one; the foreign key refuses a message
-- without one.
unfoldable pub add_message : NewMessage → Uuid → Moment → Action Message
add_message m id now =
    insert (message_of m id now)
      (λ db. not (is_some (find? (λ c. c.id == m.conversation_id) db.conversations)))
      (λ db. record db {
        messages = db.messages ++ (message_of m id now ∷ []);
        conversations =
            update_where (λ c. c.id == m.conversation_id) (counted now) db.conversations;
      })

abbrev pub messages_of : Uuid → Db → List Message
messages_of conv_id db = filter (λ m. m.conversation_id == conv_id) db.messages

abbrev pub reversed : {A : Type 0} → List A → List A
reversed [] = []
reversed (x ∷ xs) = reversed xs ++ (x ∷ [])

-- Oldest first; rows of one moment keep the order of insertion.
unfoldable pub messages : Uuid → ℕ → Action (List Message)
messages conv_id limit = select λ db.
    take limit
      (sort_desc (λ a b. ltb b.times.created_at a.times.created_at) (messages_of conv_id db))

-- The `n` newest, which the handler turns round. Rows of one moment come in the order of insertion.
unfoldable pub recent_messages : Uuid → ℕ → Action (List Message)
recent_messages conv_id n = select λ db.
    reversed (
      take n
        (sort_desc (λ a b. ltb a.times.created_at b.times.created_at) (messages_of conv_id db)))

unfoldable pub add_fact :
    Uuid → Uuid → Text → Text → ℕ → List Uuid → Option Uuid → Uuid → Moment → Action UserFact
add_fact user_id tenant_id key value confidence sources point_id id now s =
    let f : UserFact = record {
      id = id;
      user_id = user_id;
      tenant_id = tenant_id;
      key = take 128 key;
      value = value;
      confidence = confidence;
      source_message_ids = sources;
      qdrant_point_id = point_id;
      times = stamped now;
    } in
    (ok f, record s { work = record s.work { user_facts = s.work.user_facts ++ (f ∷ []) } })

unfoldable pub list_facts : Uuid → ℕ → Action (List UserFact)
list_facts user_id limit = select λ db. take limit (
    sort_desc (λ a b. ltb a.times.updated_at b.times.updated_at)
      (filter (λ f. f.user_id == user_id) db.user_facts))

abbrev pub among : List Uuid → Uuid → Bool
among [] id = false
among (x ∷ xs) id = if x == id then true else among xs id

unfoldable pub get_by_ids : List Uuid → Action (List UserFact)
get_by_ids [] s = (ok [], s)
get_by_ids (id ∷ ids) s = (ok (filter (λ f. among (id ∷ ids) f.id) s.work.user_facts), s)
