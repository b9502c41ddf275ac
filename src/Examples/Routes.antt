-- ===== src/Examples/Routes.antt =====
-- The other handlers, and the buffer of a conversation.
use legal_viet_namese.Base.{
  ℕ, ◌≡◌, refl, true, false, ◌==◌, ◌&&◌, List, [], ◌∷◌, ◌++◌, ◌+◌, Option, none, some, Text, chars,
  find?, All, take_last, arith, ok,
}
use legal_viet_namese.Core.Security.{TokenPayload, access, decode_token}
use legal_viet_namese.Db.Models.{Db, User, Conversation, Message, user, Uuid, pending, stamped}
use legal_viet_namese.Db.Session.{Session, get_session}
use legal_viet_namese.Db.Users.{by_id}
use legal_viet_namese.Db.Conversations
use legal_viet_namese.Db.Conversations.{owned}
use legal_viet_namese.Memory.ShortTerm.{Line, BufferSettings, get_buffer, warmup_from_db}
use legal_viet_namese.Memory.ShortTerm.Window.{appends, buffer-appends, warmup-appends}
use legal_viet_namese.Api.Deps.{Headers, authorize, current_token, current_user, bearer}
use legal_viet_namese.Api.Deps.Checks.{IsAccess, authorize-active}
use legal_viet_namese.Api.Conversations.{message_out, list_messages, archive_conversation}
use legal_viet_namese.Api.Conversations.Ownership.{
  Shows, of_user, archive-others, list_messages-owned,
}
use legal_viet_namese.Api.Files.{UploadFile, UploadServices, World, upload_files}
use legal_viet_namese.Api.Files.Events.{
  PubSubMessage, other_type, bad_payload, payload as told, dict, status_text, file_events,
}
use legal_viet_namese.Api.Files.Events.Following.{Watched, file_events-Watched}
use legal_viet_namese.Api.Files.Commit.{Stopped, upload_files-stored}
use legal_viet_namese.Examples.Logins.{host, jwt, db, encode}
use legal_viet_namese.Examples.Stores.{redis_lists, line_codec}

abbrev headers : Headers
headers = record { is_bearer = λ h. true; token_part = λ h. h }

abbrev person : User
person = record {
  id = 11;
  tenant_id = 10;
  email = chars "a@b.vn";
  password_hash = chars "x";
  display_name = none;
  is_active = true;
  last_login_at = none;
  times = stamped 1;
}

abbrev pub talk : Conversation
talk = record {
  id = 31;
  tenant_id = 10;
  user_id = 11;
  title = chars "law";
  summary = none;
  message_count = 0;
  archived = false;
  last_message_at = none;
  times = stamped 2;
}

abbrev pub tables : Db
tables = record db { users = person ∷ []; conversations = talk ∷ [] }

abbrev payload : TokenPayload
payload = record { sub = 11; tid = 10; typ = access; jti = 4; exp = 9000; iat = 500 }

abbrev start : Session
start = record { stored = tables; work = tables }

abbrev header : Option Text
header = some (encode payload)

let_in : (authorize headers host 1000 header start).0 ≡ ok (11, 10)
unfolding host jwt authorize current_token current_user bearer decode_token by_id
let_in = refl

authorize-active_example :
    (p : TokenPayload) × IsAccess headers host 1000 header p
    × (p.sub ≡ 11)
    × (p.tid ≡ 10)
    × (row : User) × (find? (λ u. u.id == p.sub) (person ∷ []) ≡ some row)
    × (row.is_active ≡ true)
authorize-active_example = authorize-active headers host 1000 header start 11 10 let_in

archive-others_example :
    ((get_session (archive_conversation 31 (12, 10) 5) tables).0 ≡ ok tt)
    × (of_user 11 (get_session (archive_conversation 31 (12, 10) 5) tables).1 ≡ talk ∷ [])
archive-others_example = archive-others 31 12 10 11 5 tables refl

abbrev asking : Uuid → Uuid → Message
asking id conv_id = record {
  id = id;
  conversation_id = conv_id;
  role = user;
  content = chars "what";
  meta = [];
  tokens_in = none;
  tokens_out = none;
  latency_ms = none;
  times = stamped 3;
}

-- a message of the conversation, and one of another
abbrev talked : Db
talked = record tables { messages = asking 71 31 ∷ asking 72 32 ∷ [] }

one_message :
    (get_session (list_messages 31 (11, 10)) talked).0 ≡ ok (message_out (asking 71 31) ∷ [])
unfolding get_session list_messages Conversations.get Conversations.messages
one_message = refl

list_messages-owned_example :
    (c : Conversation) × (find? (owned 31 11) (talk ∷ []) ≡ some c)
    × (c.id ≡ 31)
    × (c.user_id ≡ 11)
    × All (Shows talked 31) (message_out (asking 71 31) ∷ [])
list_messages-owned_example =
    list_messages-owned 31 11 10 talked (message_out (asking 71 31) ∷ []) one_message

abbrev upload_services : UploadServices
upload_services = record {
  max_files_per_request = 10;
  max_upload_size_mb = 1;
  allowed = λ mime. true;
  known_extension = λ name. false;
  sha256 = λ bytes. bytes;
  storage_key = λ tenant_id doc_id. tenant_id ∷ doc_id ∷ [];
  put_object = λ key content mime. ok tt;
  enqueue_job = λ doc_id. ok none;
  draw = λ i. 100 + i;
  row_id = λ i. 200 + i;
  now = 7;
}

abbrev a_file : Text → UploadFile
a_file content = record { filename = none; content_type = none; content = content }

abbrev idle : World
idle = record { session = start; objects = []; enqueued = [] }

-- The second file is empty.
upload_files-stored_example :
    Stopped upload_services 11 10
      (a_file (chars "x") ∷ a_file [] ∷ [])
      idle
      (upload_files upload_services 11 10 (a_file (chars "x") ∷ a_file [] ∷ []) idle).1
upload_files-stored_example =
    upload_files-stored upload_services 11 10 (a_file (chars "x") ∷ a_file [] ∷ []) idle

abbrev two_lines : BufferSettings
two_lines = record { short_term_buffer_size = 2; short_term_buffer_ttl_s = 60 }

abbrev key_of : Uuid → Text
key_of conv_id = conv_id ∷ []

abbrev line : ℕ → Line
line n = record { role = chars "user"; content = n ∷ [] }

abbrev blank : Text → List Text
blank key = []

blank_buffer : get_buffer redis_lists line_codec key_of two_lines 31 blank ≡ []
unfolding get_buffer
blank_buffer = refl

buffer-appends_example :
    get_buffer redis_lists line_codec key_of two_lines 31
      (appends redis_lists line_codec key_of two_lines 31 (line 1 ∷ line 2 ∷ line 3 ∷ []) blank)
    ≡ take_last 2 (
        get_buffer redis_lists line_codec key_of two_lines 31 blank
        ++ (line 1 ∷ line 2 ∷ line 3 ∷ []))
buffer-appends_example =
    buffer-appends redis_lists line_codec key_of two_lines 31 (line 1 ∷ line 2 ∷ line 3 ∷ []) blank
      (omega arith) (rw blank_buffer (omega arith))

warmup-appends_example :
    get_buffer redis_lists line_codec key_of two_lines 31 (
      warmup_from_db redis_lists line_codec key_of two_lines 31
        (line 1 ∷ line 2 ∷ line 3 ∷ [])
        blank)
    ≡ get_buffer redis_lists line_codec key_of two_lines 31
        (appends redis_lists line_codec key_of two_lines 31 (line 1 ∷ line 2 ∷ line 3 ∷ []) blank)
warmup-appends_example =
    warmup-appends redis_lists line_codec key_of two_lines 31 (line 1) (line 2 ∷ line 3 ∷ []) blank
      blank (omega arith) blank_buffer

abbrev messages_in : List PubSubMessage
messages_in =
    other_type
    ∷ told (some (chars "status")) (dict (chars "{}") (some (chars "parsing")))
    ∷ told (some (chars "status")) (dict (chars "{}") (some (chars "indexed")))
    ∷ bad_payload
    ∷ []

abbrev with_file : Db
with_file = record tables {
  documents =
      record {
        id = 3;
        tenant_id = 10;
        user_id = 11;
        title = chars "law";
        mime_type = chars "text/plain";
        size_bytes = 3;
        checksum_sha256 = chars "x";
        storage_key = chars "k";
        status = pending;
        n_chunks = none;
        markdown_key = none;
        error = none;
        meta = [];
        indexed_at = none;
        times = stamped 5;
      }
      ∷ [];
}

file_events-Watched_example :
    Watched status_text
      (find? (λ d. (d.id == 3) && (d.user_id == 11)) with_file.documents)
      messages_in
      (file_events status_text 3 11 messages_in with_file)
file_events-Watched_example = file_events-Watched status_text 3 11 messages_in with_file
