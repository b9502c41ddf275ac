-- ===== src/Api/Conversations.antt =====
-- The handlers of src/api/routes/conversations.py.
pub mod Ownership
use legal_viet_namese.Base.{
  ℕ, Bool, List, [], ◌∷◌, Option, none, some, Text, chars, is_empty, is_some, not, map,
  if◌then◌else◌, Result, ok, err, Exec, ◌>>=◌, ◌>>◌, pure, raise_if,
}
use legal_viet_namese.Db.Models.{Conversation, Message, Role, Uuid, Moment, Jsonb}
use legal_viet_namese.Db.Session.{Action, Exception, http_exception, commit}
use legal_viet_namese.Db.Conversations

pub record ConversationOut : Type 0 where
  pub id : Uuid
  pub title : Text
  pub message_count : ℕ
  pub last_message_at : Option Moment
  pub created_at : Moment
  pub updated_at : Moment

abbrev pub conversation_out : Conversation → ConversationOut
conversation_out c = record {
  id = c.id;
  title = c.title;
  message_count = c.message_count;
  last_message_at = c.last_message_at;
  created_at = c.times.created_at;
  updated_at = c.times.updated_at;
}

pub record MessageOut : Type 0 where
  pub id : Uuid
  pub role : Role
  pub content : Text
  pub meta : Jsonb
  pub tokens_in : Option ℕ
  pub tokens_out : Option ℕ
  pub created_at : Moment

abbrev pub message_out : Message → MessageOut
message_out m = record {
  id = m.id;
  role = m.role;
  content = m.content;
  meta = m.meta;
  tokens_in = m.tokens_in;
  tokens_out = m.tokens_out;
  created_at = m.times.created_at;
}

-- `req.title or "New conversation"`: an empty title is false too
abbrev pub title_or : Option Text → Text
title_or none = chars "New conversation"
title_or (some t) = if is_empty t then chars "New conversation" else t

unfoldable pub create_conversation :
    Option Text → Uuid × Uuid → Uuid → Moment → Action ConversationOut
create_conversation title (user_id, tenant_id) id now = do
  c ← Conversations.create tenant_id user_id (title_or title) id now
  commit
  pure (conversation_out c)

unfoldable pub list_conversations : Uuid × Uuid → ℕ → ℕ → Action (List ConversationOut)
list_conversations (user_id, tenant_id) limit offset = do
  items ← Conversations.list_for_user user_id limit offset
  pure (map conversation_out items)

unfoldable pub list_messages : Uuid → Uuid × Uuid → Action (List MessageOut)
list_messages conv_id (user_id, tenant_id) = do
  conv ← Conversations.get conv_id user_id
  raise_if (not (is_some conv)) (http_exception 404 "conversation not found")
  msgs ← Conversations.messages conv_id 200
  pure (map message_out msgs)

unfoldable pub archive_conversation : Uuid → Uuid × Uuid → Moment → Action (Unit {0})
archive_conversation conv_id (user_id, tenant_id) now = do
  Conversations.archive conv_id user_id now
  commit
