-- ===== src/Gateway/Reviews/Postgres.antt =====
-- apps/lean-gateway/lean_langchain_gateway/api/review_store_postgres.py: PostgresReviewStore over a table. The
-- table is a parameter, with what SQL documents of the statements for a primary key; `jsonb` is what a JSONB
-- column makes of a dictionary. The connection, and a payload that is no dictionary, are left out.
use lean_lang_chain.Common.{ℕ, String, Bool, Option, none, some, ◌≡◌, ◌==◌, if◌then◌else◌, ltb}
use lean_lang_chain.Json.{Fields, set, str}
use lean_lang_chain.Gateway.Reviews.{
  ReviewDecision, ReviewRecord, ReviewStore, decision_text, put, get_record, get_payload,
  set_decision, delete,
}

-- the columns that are read, and the record that `get` returns
pub record Row : Type 0 where
  pub payload : Fields
  pub decision : Option String

-- what an update makes of a row
abbrev pub with_decision : String → Option Row → Option Row
with_decision d none = none
with_decision d (some r) = some (record { payload = r.payload; decision = some d })

abbrev pub rows : Option Row → ℕ
rows none = 0
rows (some r) = 1

-- The statements on the table obr_reviews, in the states `S`: an insert that replaces the row on
-- conflict, a select, an update and a delete, the last two with the number of rows.
pub record ReviewTable (S : Type 0) : Type 0 where
  pub jsonb : Fields → Fields
  pub select : String → S → Option Row
  pub upsert : String → Fields → S → S
  pub update : String → String → S → ℕ × S
  pub remove : String → S → ℕ × S
  pub select-upsert :
      (t u : String) (p : Fields) (s : S)
      → select u (upsert t p s)
        ≡ (if t == u then some (record { payload = jsonb p; decision = none }) else select u s)
  pub update-rows : (d t : String) (s : S) → (update d t s).0 ≡ rows (select t s)
  pub select-update :
      (d t u : String) (s : S)
      → select u (update d t s).1 ≡ (if t == u then with_decision d (select t s) else select u s)
  pub remove-rows : (t : String) (s : S) → (remove t s).0 ≡ rows (select t s)
  pub select-remove :
      (t u : String) (s : S) → select u (remove t s).1 ≡ (if t == u then none else select u s)

module _ {S : Type 0} (table : ReviewTable S) where
  unfoldable pub postgres_put : String → Fields → S → S
  postgres_put t p s = table.upsert t p s

  unfoldable pub postgres_get : String → S → Option Row
  postgres_get t s = table.select t s

  abbrev row_status : Fields → Option String → Fields
  row_status p none = p
  row_status p (some d) = set "status" (str d) p

  abbrev row_payload : Option Row → Option Fields
  row_payload none = none
  row_payload (some r) = some (row_status r.payload r.decision)

  unfoldable pub postgres_get_payload : String → S → Option Fields
  unfolding postgres_get set
  postgres_get_payload t s = row_payload (postgres_get t s)

  unfoldable pub postgres_set_decision : String → ReviewDecision → S → Bool × S
  postgres_set_decision t d s = let (n, s') = table.update (decision_text d) t s in (ltb 0 n, s')

  unfoldable pub postgres_delete : String → S → Bool × S
  postgres_delete t s = let (n, s') = table.remove t s in (ltb 0 n, s')

-- a call of a store, and what it returns
pub data Op : Type 0 where
  save : String → Fields → Op
  fetch : String → Op
  read : String → Op
  settle : String → ReviewDecision → Op
  drop : String → Op

pub data Answer : Type 0 where
  nothing : Answer
  fetched : Option Row → Answer
  payload : Option Fields → Answer
  found : Bool → Answer

abbrev pub text_of : Option ReviewDecision → Option String
text_of none = none
text_of (some d) = some (decision_text d)

-- the row that stands for a record
abbrev pub row_of : Option ReviewRecord → Option Row
row_of none = none
row_of (some r) = some (record { payload = r.payload; decision = text_of r.decision })

-- the store in memory, on the payloads that a column would hold
unfoldable pub memory_call : (Fields → Fields) → ReviewStore → Op → Answer × ReviewStore
unfolding put get_record get_payload set_decision delete
memory_call jsonb s (save t p) = (nothing, put t (jsonb p) s)
memory_call jsonb s (fetch t) = (fetched (row_of (get_record t s)), s)
memory_call jsonb s (read t) = (payload (get_payload t s), s)
memory_call jsonb s (settle t d) = (found (set_decision t d s).0, (set_decision t d s).1)
memory_call jsonb s (drop t) = (found (delete t s).0, (delete t s).1)

unfoldable pub postgres_call : {S : Type 0} → ReviewTable S → S → Op → Answer × S
unfolding postgres_put postgres_get postgres_get_payload postgres_set_decision postgres_delete
postgres_call table s (save t p) = (nothing, postgres_put table t p s)
postgres_call table s (fetch t) = (fetched (postgres_get table t s), s)
postgres_call table s (read t) = (payload (postgres_get_payload table t s), s)
postgres_call table s (settle t d) =
    (found (postgres_set_decision table t d s).0, (postgres_set_decision table t d s).1)
postgres_call table s (drop t) =
    (found (postgres_delete table t s).0, (postgres_delete table t s).1)
