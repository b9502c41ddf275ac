-- ===== src/Db/Models.antt =====
-- src/db/models: the rows of the tables. A UUID is a number, a moment is a number of seconds, and
-- a JSONB value is a list of names with texts.
use legal_viet_namese.Base.{ℕ, Bool, List, Option, Text, chars}

abbrev pub Uuid : Type 0
Uuid = ℕ

abbrev pub Moment : Type 0
Moment = ℕ

abbrev pub Jsonb : Type 0
Jsonb = List (Text × Text)

-- the columns of TimestampMixin
pub record Timestamps : Type 0 where
  pub created_at : Moment
  pub updated_at : Moment

pub record Tenant : Type 0 where
  pub id : Uuid
  pub name : Text
  pub slug : Text
  pub times : Timestamps

pub record User : Type 0 where
  pub id : Uuid
  pub tenant_id : Uuid
  pub email : Text
  pub password_hash : Text
  pub display_name : Option Text
  pub is_active : Bool
  pub last_login_at : Option Moment
  pub times : Timestamps

pub record RefreshToken : Type 0 where
  pub id : Uuid
  pub user_id : Uuid
  pub token_hash : Text
  pub expires_at : Moment
  pub revoked_at : Option Moment
  pub user_agent : Option Text
  pub ip_address : Option Text
  pub times : Timestamps

pub record Conversation : Type 0 where
  pub id : Uuid
  pub tenant_id : Uuid
  pub user_id : Uuid
  pub title : Text
  pub summary : Option Text
  pub message_count : ℕ
  pub archived : Bool
  pub last_message_at : Option Moment
  pub times : Timestamps

-- the values that the source lists for `Message.role`
pub data Role : Type 0 where
  user assistant tool system : Role

abbrev pub role_text : Role → Text
role_text user = chars "user"
role_text assistant = chars "assistant"
role_text system = chars "system"
role_text tool = chars "tool"

pub record Message : Type 0 where
  pub id : Uuid
  pub conversation_id : Uuid
  pub role : Role
  pub content : Text
  pub meta : Jsonb
  pub tokens_in : Option ℕ
  pub tokens_out : Option ℕ
  pub latency_ms : Option ℕ
  pub times : Timestamps

-- the values that the source lists for `Document.status`
pub data Status : Type 0 where
  pending parsing chunking embedding indexed failed : Status

pub record Document : Type 0 where
  pub id : Uuid
  pub tenant_id : Uuid
  pub user_id : Uuid
  pub title : Text
  pub mime_type : Text
  pub size_bytes : ℕ
  pub checksum_sha256 : Text
  pub storage_key : Text
  pub status : Status
  pub n_chunks : Option ℕ
  pub markdown_key : Option Text
  pub error : Option Text
  pub meta : Jsonb
  pub indexed_at : Option Moment
  pub times : Timestamps

pub record DocumentChunk : Type 0 where
  pub id : Uuid
  pub document_id : Uuid
  pub chunk_index : ℕ
  pub text : Text
  pub n_tokens : ℕ
  pub heading_path : Option Text
  pub page_from : Option ℕ
  pub page_to : Option ℕ
  pub qdrant_point_id : Option Uuid
  pub times : Timestamps

-- `confidence` is in hundredths.
pub record UserFact : Type 0 where
  pub id : Uuid
  pub user_id : Uuid
  pub tenant_id : Uuid
  pub key : Text
  pub value : Text
  pub confidence : ℕ
  pub source_message_ids : List Uuid
  pub qdrant_point_id : Option Uuid
  pub times : Timestamps

-- A table is the list of its rows, in the order of insertion.
pub record Db : Type 0 where
  pub tenants : List Tenant
  pub users : List User
  pub refresh_tokens : List RefreshToken
  pub conversations : List Conversation
  pub messages : List Message
  pub documents : List Document
  pub document_chunks : List DocumentChunk
  pub user_facts : List UserFact

-- `server_default=func.now()` of both columns
abbrev pub stamped : Moment → Timestamps
stamped now = record { created_at = now; updated_at = now }

-- `onupdate=func.now()`
abbrev pub touched : Moment → Timestamps → Timestamps
touched now t = record t { updated_at = now }
