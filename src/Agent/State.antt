-- ===== src/Agent/State.antt =====
-- src/agent/state.py. A key that the `TypedDict` leaves out has the value that `state.get` gives.
use legal_viet_namese.Base.{ℕ, List, [], Option, Text}
use legal_viet_namese.Db.Models.{Uuid}
use legal_viet_namese.Memory.ShortTerm.{Line}
use legal_viet_namese.Memory.LongTerm.{RetrievedFact}

pub record Citation (S : Type 0) : Type 0 where
  pub doc_id : Uuid
  pub chunk_id : Uuid
  pub doc_title : Text
  pub heading_path : Option Text
  pub page_from : Option ℕ
  pub page_to : Option ℕ
  pub score : S

pub record RetrievedDoc (S : Type 0) : Type 0 where
  pub doc_id : Uuid
  pub chunk_id : Uuid
  pub doc_title : Text
  pub heading_path : Option Text
  pub page_from : Option ℕ
  pub page_to : Option ℕ
  pub text : Text
  pub score : S

pub record AgentState (S : Type 0) : Type 0 where
  pub user_message : Text
  pub conversation_id : Uuid
  pub user_id : Uuid
  pub tenant_id : Uuid
  pub short_term_history : List Line
  pub summary : Option Text
  pub long_term_facts : List (RetrievedFact S)
  pub retrieved : List (RetrievedDoc S)
  pub citations : List (Citation S)
  pub answer : Text

-- the state that a run starts with
abbrev pub initial : {S : Type 0} → Text → Uuid → Uuid → Uuid → Option Text → AgentState S
initial user_message conversation_id user_id tenant_id summary = record {
  user_message = user_message;
  conversation_id = conversation_id;
  user_id = user_id;
  tenant_id = tenant_id;
  short_term_history = [];
  summary = summary;
  long_term_facts = [];
  retrieved = [];
  citations = [];
  answer = [];
}
