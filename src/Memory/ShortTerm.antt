-- ===== src/Memory/ShortTerm.antt =====
-- src/memory/short_term.py: the buffer of a conversation, a Redis list that keeps the last messages.
pub mod Window
use legal_viet_namese.Base.{
  ℕ, ◌≡◌, List, [], ◌∷◌, ◌++◌, map, Text, text_eq, false, take_last, ◌==◌, if◌then◌else◌,
}
use legal_viet_namese.Core.Redis.{Codec}
use legal_viet_namese.Db.Models.{Uuid}

-- The list commands of Redis are parameters. `ltrim_last key n` is LTRIM key -n -1, which keeps the
-- last n entries, and all of them at 0, since -0 is the first index.
pub record RedisLists : Type 1 where
  pub Store : Type 0
  pub lrange : Store → Text → List Text
  pub rpush : Text → Text → Store → Store
  pub ltrim_last : Text → ℕ → Store → Store
  pub expire : Text → ℕ → Store → Store
  pub delete : Text → Store → Store
  pub lrange-rpush :
      (key v : Text) (s : Store) → lrange (rpush key v s) key ≡ lrange s key ++ (v ∷ [])
  pub lrange-ltrim :
      (key : Text) (n : ℕ) (s : Store)
      → lrange (ltrim_last key n s) key
        ≡ (if n == 0 then lrange s key else take_last n (lrange s key))
  pub lrange-expire : (key : Text) (n : ℕ) (s : Store) → lrange (expire key n s) key ≡ lrange s key
  pub lrange-delete : (key : Text) (s : Store) → lrange (delete key s) key ≡ []

-- a message of the buffer, `{"role": …, "content": …}`
pub record Line : Type 0 where
  pub role : Text
  pub content : Text

-- `xs[-n:]`, which is all of `xs` at 0
abbrev pub last_items {ℓ} : {A : Type ℓ} → ℕ → List A → List A
last_items n xs = if n == 0 then xs else take_last n xs

pub record BufferSettings : Type 0 where
  pub short_term_buffer_size : ℕ
  pub short_term_buffer_ttl_s : ℕ

-- `buffer_key` is the f-string `conv:buf:{conv_id}`.
module _ (redis : RedisLists) (json : Codec Line) (buffer_key : Uuid → Text)
    (settings : BufferSettings) where
  open redis use {Store, lrange, rpush, ltrim_last, expire, delete}
  open settings use {short_term_buffer_size, short_term_buffer_ttl_s}

  unfoldable pub append_message : Uuid → Line → Store → Store
  append_message conv_id m s =
      let key = buffer_key conv_id in
      expire key short_term_buffer_ttl_s
        (ltrim_last key short_term_buffer_size (rpush key (json.dumps m) s))

  unfoldable pub get_buffer : Uuid → Store → List Line
  get_buffer conv_id s = map json.loads (lrange s (buffer_key conv_id))

  unfoldable pub reset_buffer : Uuid → Store → Store
  reset_buffer conv_id s = delete (buffer_key conv_id) s

  abbrev pub push_all : Text → List Line → Store → Store
  push_all key [] s = s
  push_all key (m ∷ ms) s = push_all key ms (rpush key (json.dumps m) s)

  unfoldable pub warmup_from_db : Uuid → List Line → Store → Store
  warmup_from_db conv_id [] s = s
  warmup_from_db conv_id (m ∷ ms) s =
      let key = buffer_key conv_id in
      expire key short_term_buffer_ttl_s
        (push_all key (last_items short_term_buffer_size (m ∷ ms)) (delete key s))
