-- ===== src/Worker/Memory.antt =====
-- `extract_facts` of src/worker/tasks/memory.py. The model and the reading of its JSON are
-- parameters; the text is stripped as `str.strip` does.
pub mod Rows
pub mod Extraction
use legal_viet_namese.Base.{
  ◌>>=◌, ◌>>◌, ℕ, suc, ◌+◌, ◌*◌, Bool, true, false, ◌||◌, ◌==◌, List, [], ◌∷◌, ◌++◌, map, filter,
  find?, take, join, strip, Option, none, some, Text, chars, is_empty, Result, ok, err, pure,
  if◌then◌else◌,
}
use legal_viet_namese.Db.Models.{
  Conversation, Message, Role, user, assistant, system, tool, role_text, Uuid, Moment,
}
use legal_viet_namese.Db.Session.{Action, Exception, select}
use legal_viet_namese.Db.Conversations.{recent_messages}
use legal_viet_namese.Memory.LongTerm.{FactCollection, NewFact, Task, in_session, call, save_fact}
use legal_viet_namese.Retrieval.Scores.{Scores}

-- A value of the answer: `falsy` is a missing one, null, "", 0, [] or {}.
pub data Value : Type 0 where
  falsy : Value
  text : Text → Value
  other_value : Value

-- an item of the answer: a JSON object, or a value that has no `get` and raises
pub data Item : Type 0 where
  entry : Value → Value → Value → Item
  no_dict : Exception → Item

-- `json.loads(raw)` and `obj.get("facts", []) or []`: no JSON, the items, or an exception that the
-- handler of `JSONDecodeError` does not catch
pub data Reading : Type 0 where
  invalid_json : Reading
  items : List Item → Reading
  no_object : Exception → Reading

-- `read` reads the answer; `float_of` is `float(x)`, and `no_strip` what `.strip()` raises on a value
-- that is no text; `default` is the confidence 0.8.
pub record Extractor : Type 0 where
  pub system_prompt : Text
  pub complete : Text → Text → Result Exception (Option Text)
  pub read : Text → Reading
  pub float_of : Value → Result Exception ℕ
  pub no_strip : Exception
  pub default : ℕ
  pub draw : ℕ → Uuid
  pub now : Moment

abbrev pub line_of : Message → Text
line_of m = chars "[" ++ (role_text m.role ++ (chars "] " ++ m.content))

abbrev pub transcript : List Message → Text
transcript msgs = join (10 ∷ []) (map line_of msgs)

abbrev pub is_user : Role → Bool
is_user user = true
is_user assistant = false
is_user system = false
is_user tool = false

-- what the session of the task hands on: the messages and the owner of the conversation
pub record Conversing : Type 0 where
  pub msgs : List Message
  pub user_id : Uuid
  pub tenant_id : Uuid
  pub source_ids : List Uuid

abbrev pub of_owner : List Message → Conversation → Conversing
of_owner msgs c = record {
  msgs = msgs;
  user_id = c.user_id;
  tenant_id = c.tenant_id;
  source_ids = map (λ m. m.id) (filter (λ m. is_user m.role) msgs);
}

abbrev pub conversing : List Message → Option Conversation → Option Conversing
conversing msgs none = none
conversing msgs (some c) = some (of_owner msgs c)

abbrev pub with_messages : Uuid → List Message → Action (Option Conversing)
with_messages conv_id [] = pure none
with_messages conv_id (m ∷ ms) = do
  conv ← select (λ db. find? (λ c. c.id == conv_id) db.conversations)
  pure (conversing (m ∷ ms) conv)

unfoldable pub read_conversation : Uuid → Action (Option Conversing)
read_conversation conv_id = do msgs ← recent_messages conv_id 20; with_messages conv_id msgs

-- `content or "{}"`
abbrev pub or_braces : Option Text → Text
or_braces none = chars "{}"
or_braces (some []) = chars "{}"
or_braces (some (c ∷ cs)) = c ∷ cs

abbrev pub facts_of : Reading → Result Exception (List Item)
facts_of invalid_json = ok []
facts_of (items xs) = ok xs
facts_of (no_object e) = err e

module _ (x : Extractor) where
  -- `(v or "").strip()`
  abbrev pub stripped : Value → Result Exception Text
  stripped falsy = ok []
  stripped (text t) = ok (strip t)
  stripped other_value = err x.no_strip

  -- `float(v or 0.8)`
  abbrev pub confidence_of : Value → Result Exception ℕ
  confidence_of falsy = ok x.default
  confidence_of (text t) = x.float_of (text t)
  confidence_of other_value = x.float_of other_value

abbrev pub fact_of : Conversing → Text → Text → ℕ → NewFact
fact_of c key value confidence = record {
  user_id = c.user_id;
  tenant_id = c.tenant_id;
  key = key;
  value = value;
  confidence = confidence;
  source_message_ids = c.source_ids;
}

module _ (scores : Scores) {Vector : Type 0} (col : FactCollection scores.Score Vector)
    (embed : List Text → Result Exception (List Vector)) (threshold : scores.Score)
    (x : Extractor) where
  abbrev pub Job : Type 0 → Type 0
  Job A = Task scores col embed A

  -- One round of the loop adds 1 or nothing to `saved`. The i-th round draws the UUIDs 2i and 2i + 1.
  abbrev pub save_entry : Conversing → ℕ → Text → Text → ℕ → ℕ → Job ℕ
  save_entry c i key value confidence saved =
      if is_empty key || is_empty value then pure saved else (do
        inserted ←
            save_fact scores col embed threshold (fact_of c key value confidence) (x.draw (2 * i))
              (x.draw (suc (2 * i))) x.now
        pure (if inserted then suc saved else saved))

  abbrev pub save_item : Conversing → ℕ → Item → ℕ → Job ℕ
  save_item c i (no_dict e) saved = call scores col embed (err e)
  save_item c i (entry k v p) saved = do
    key ← call scores col embed (stripped x k)
    value ← call scores col embed (stripped x v)
    confidence ← call scores col embed (confidence_of x p)
    save_entry c i key value confidence saved

  unfoldable pub save_items : Conversing → ℕ → List Item → ℕ → Job ℕ
  save_items c i [] saved = pure saved
  save_items c i (f ∷ fs) saved = do saved' ← save_item c i f saved; save_items c (suc i) fs saved'

  abbrev pub extract : Option Conversing → Job ℕ
  extract none = pure 0
  extract (some c) = do
    content ← call scores col embed (x.complete x.system_prompt (take 8000 (transcript c.msgs)))
    facts ← call scores col embed (facts_of (x.read (or_braces content)))
    save_items c 0 facts 0

  -- the number of facts that were saved
  unfoldable pub extract_facts : Uuid → Job ℕ
  extract_facts conv_id = do
    found ← in_session scores col embed (read_conversation conv_id)
    extract found
