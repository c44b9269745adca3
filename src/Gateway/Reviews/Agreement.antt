-- ===== src/Gateway/Reviews/Agreement.antt =====
-- The review store in Postgres against the one in memory.
use lean_lang_chain.Common.{
  String, Bool, true, false, Option, none, some, List, [], ◌≡◌, refl, ap, sym, ◌∙◌, ◌==◌,
  if◌then◌else◌, arith, eq_iff, ltb, is_some,
}
use lean_lang_chain.Common.Runs.{answers, answers-simulated}
use lean_lang_chain.Json.{Fields}
use lean_lang_chain.Gateway.Map.{lookup-store, lookup-erase}
use lean_lang_chain.Gateway.Reviews.{
  ReviewDecision, ReviewRecord, ReviewStore, decision_text, put, get_record, get_payload,
  set_decision, delete, shown,
}
use lean_lang_chain.Gateway.Reviews.Postgres.{
  rows, with_decision, ReviewTable, Op, save, read, fetch, settle, drop, payload, fetched, found,
  memory_call, row_of, postgres_call, postgres_put, postgres_get, postgres_get_payload,
  postgres_set_decision, postgres_delete,
}

abbrev settled : ReviewDecision → Option ReviewRecord → Option ReviewRecord
settled d none = none
settled d (some r) = some (record { payload = r.payload; decision = some d })

-- a decision and a deletion, told by the record of the thread
set_decision-record :
    (t u : String) (d : ReviewDecision) (s : ReviewStore) (o : Option ReviewRecord)
    → get_record t s ≡ o
    → ((set_decision t d s).0 ≡ is_some o)
      × (get_record u (set_decision t d s).1 ≡ (if t == u then settled d o else get_record u s))
unfolding set_decision
set_decision-record t u d s none h =
    (rw (h, set_decision) refl, rw (h, set_decision) (ground (arith, eq_iff t u)))
set_decision-record t u d s (some r) h = (
  rw (h, set_decision) refl,
  rw (h, set_decision)
      (unfold get_record in lookup-store t u (record { payload = r.payload; decision = some d }) s),
)

delete-record :
    (t u : String) (s : ReviewStore) (o : Option ReviewRecord)
    → get_record t s ≡ o
    → ((delete t s).0 ≡ is_some o)
      × (get_record u (delete t s).1 ≡ (if t == u then none else get_record u s))
unfolding delete
delete-record t u s none h = (rw (h, delete) refl, rw (h, delete) (ground (arith, eq_iff t u)))
delete-record t u s (some r) h =
    (rw (h, delete) refl, rw (h, delete) (unfold get_record in lookup-erase t u s))

rows-is_some : (o : Option ReviewRecord) → ltb 0 (rows (row_of o)) ≡ is_some o
rows-is_some none = refl
rows-is_some (some r) = refl

-- a test under a function of its branches
row_of-if :
    (b : Bool) (x y : Option ReviewRecord)
    → row_of (if b then x else y) ≡ (if b then row_of x else row_of y)
row_of-if true x y = refl
row_of-if false x y = refl

row_of-settled :
    (d : ReviewDecision) (o : Option ReviewRecord)
    → row_of (settled d o) ≡ with_decision (decision_text d) (row_of o)
row_of-settled d none = refl
row_of-settled d (some r) = refl

module _ {S : Type 0} (table : ReviewTable S) where
  -- the table holds the rows that stand for the records
  abbrev pub Agree : ReviewStore → S → Type 0
  Agree s g = (t : String) → row_of (get_record t s) ≡ table.select t g

  save-Agree :
      (t : String) (p : Fields) (s : ReviewStore) (g : S)
      → Agree s g
      → Agree (put t (table.jsonb p) s) (postgres_put table t p g)
  unfolding put postgres_put get_record
  save-Agree t p s g h u =
      ap row_of (lookup-store t u (record { payload = table.jsonb p; decision = none }) s)
      ∙ row_of-if (t == u) _ _
      ∙ rw (h u, table.select-upsert t u p g) refl

  settle-Agree :
      (t : String) (d : ReviewDecision) (s : ReviewStore) (g : S)
      → Agree s g
      → Agree (set_decision t d s).1 (postgres_set_decision table t d g).1
  unfolding postgres_set_decision
  settle-Agree t d s g h u =
      ap row_of (set_decision-record t u d s (get_record t s) refl).1
      ∙ row_of-if (t == u) _ _
      ∙ rw
          (row_of-settled d (get_record t s), h t, h u, table.select-update (decision_text d) t u g)
          refl

  drop-Agree :
      (t : String) (s : ReviewStore) (g : S)
      → Agree s g
      → Agree (delete t s).1 (postgres_delete table t g).1
  unfolding postgres_delete
  drop-Agree t s g h u =
      ap row_of (delete-record t u s (get_record t s) refl).1
      ∙ row_of-if (t == u) _ _
      ∙ rw (h u, table.select-remove t u g) refl

  settle-found :
      (t : String) (d : ReviewDecision) (s : ReviewStore) (g : S)
      → Agree s g
      → (set_decision t d s).0 ≡ (postgres_set_decision table t d g).0
  unfolding postgres_set_decision
  settle-found t d s g h =
      (set_decision-record t t d s (get_record t s) refl).0
      ∙ sym (rows-is_some (get_record t s))
      ∙ rw (h t, table.update-rows (decision_text d) t g) refl

  drop-found :
      (t : String) (s : ReviewStore) (g : S)
      → Agree s g
      → (delete t s).0 ≡ (postgres_delete table t g).0
  unfolding postgres_delete
  drop-found t s g h =
      (delete-record t t s (get_record t s) refl).0
      ∙ sym (rows-is_some (get_record t s))
      ∙ rw (h t, table.remove-rows t g) refl

  read-status :
      (t : String) (s : ReviewStore) (g : S) (r : ReviewRecord) (d : Option ReviewDecision)
      → get_record t s ≡ some r
      → r.decision ≡ d
      → table.select t g ≡ row_of (some r)
      → get_payload t s ≡ postgres_get_payload table t g
  unfolding get_payload postgres_get_payload postgres_get shown
  read-status t s g r none e k f = rw (e, get_payload) (rw (f, postgres_get_payload) (rw k refl))
  read-status t s g r (some d) e k f =
      rw (e, get_payload) (rw (f, postgres_get_payload) (rw k refl))

  read-record :
      (t : String) (s : ReviewStore) (g : S) (o : Option ReviewRecord)
      → get_record t s ≡ o
      → table.select t g ≡ row_of o
      → get_payload t s ≡ postgres_get_payload table t g
  unfolding get_payload postgres_get_payload postgres_get shown
  read-record t s g none e f = rw (e, get_payload) (rw (f, postgres_get_payload) refl)
  read-record t s g (some r) e f = read-status t s g r r.decision e refl f

  read-payload :
      (t : String) (s : ReviewStore) (g : S)
      → Agree s g
      → get_payload t s ≡ postgres_get_payload table t g
  unfolding get_payload postgres_get_payload postgres_get shown
  read-payload t s g h = read-record t s g (get_record t s) refl (sym (h t))

  call-Agree :
      (op : Op) (s : ReviewStore) (g : S)
      → Agree s g
      → ((memory_call table.jsonb s op).0 ≡ (postgres_call table g op).0)
        × Agree (memory_call table.jsonb s op).1 (postgres_call table g op).1
  unfolding memory_call postgres_call postgres_get
  call-Agree (save t p) s g h = (refl, save-Agree t p s g h)
  call-Agree (fetch t) s g h = (ap fetched (h t), h)
  call-Agree (read t) s g h = (ap payload (read-payload t s g h), h)
  call-Agree (settle t d) s g h = (ap found (settle-found t d s g h), settle-Agree t d s g h)
  call-Agree (drop t) s g h = (ap found (drop-found t s g h), drop-Agree t s g h)

  -- Whatever is called of put, get, get_payload, set_decision and delete, in whatever order, the store
  -- in Postgres returns what the store in memory returns on the payloads as a JSONB column holds them,
  -- where neither held a review at the start.
  pub answers-postgres :
      (ops : List Op) (g : S)
      → ((t : String) → table.select t g ≡ none)
      → answers (postgres_call table) g ops ≡ answers (memory_call table.jsonb) [] ops
  unfolding get_record
  answers-postgres ops g empty = sym (
      answers-simulated Agree (memory_call table.jsonb) (postgres_call table) call-Agree ops [] g
        (λ t. sym (empty t)))
