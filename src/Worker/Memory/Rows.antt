-- ===== src/Worker/Memory/Rows.antt =====
-- Rows of facts that the task of src/worker/tasks/memory.py adds.
use legal_viet_namese.Base.{
  ℕ, ◌+◌, ◌≡◌, refl, sym, ap, ◌∙◌, false, List, [], ◌++◌, is_empty, length, All, All-append,
  length-append, append_assoc, append-nil, arith,
}
use legal_viet_namese.Db.Models.{Db, UserFact, Uuid}

-- the row is the owner's, and neither its key nor its value is empty
pub record IsFactOf (user_id tenant_id : Uuid) (r : UserFact) : Type 0 where
  pub of_user : r.user_id ≡ user_id
  pub of_tenant : r.tenant_id ≡ tenant_id
  pub some_key : is_empty r.key ≡ false
  pub some_value : is_empty r.value ≡ false

-- n rows with the property stand behind the old ones, and nothing else has changed
pub record Adds (P : UserFact → Type 0) (n : ℕ) (db db' : Db) : Type 0 where
  pub rows : List UserFact
  pub good : All P rows
  pub many : length rows ≡ n
  pub same : db' ≡ record db { user_facts = db.user_facts ++ rows }

pub no_rows : (db : Db) → db ≡ record db { user_facts = db.user_facts ++ [] }
no_rows db =
    ap (λ (us : List UserFact). record db { user_facts = us }) (sym (append-nil db.user_facts))

module _ (P : UserFact → Type 0) where
  pub Adds-refl : (db : Db) → Adds P 0 db db
  Adds-refl db = record { rows = []; good = tt; many = refl; same = no_rows db }

  pub Adds-trans : (m n : ℕ) (a b c : Db) → Adds P m a b → Adds P n b c → Adds P (m + n) a c
  Adds-trans m n a b c h k = record {
    rows = h.rows ++ k.rows;
    good = All-append P h.rows k.rows h.good k.good;
    many = omega (arith, length-append h.rows k.rows, h.many, k.many);
    same =
        k.same
        ∙ (ap {A = Db} (λ d. record d { user_facts = d.user_facts ++ k.rows }) h.same
            ∙ ap (λ us. record a { user_facts = us }) (append_assoc a.user_facts h.rows k.rows));
  }
