-- ===== src/Tests/Stores.antt =====
-- The stores behind a server, the router and the probes at concrete servers and calls.
use lean_lang_chain.Common.{
  String, true, false, Option, none, some, List, [], ◌∷◌, ◌++◌, ◌≡◌, refl, length, if◌then◌else◌,
  ◌==◌, map,
}
use lean_lang_chain.Common.Runs.{answers}
use lean_lang_chain.Json.{Fields, set, str, end, field, get}
use lean_lang_chain.Text.Lines.{split}
use lean_lang_chain.Text.{strip, lower}
use lean_lang_chain.Gateway.Runners.{Env}
use lean_lang_chain.Gateway.Queues.{plain, head?, tail}
use lean_lang_chain.Gateway.Queues.Redis
use lean_lang_chain.Gateway.Queues.Redis.{ListServer, answers-redis}
use lean_lang_chain.Gateway.Reviews.{ReviewDecision}
use lean_lang_chain.Gateway.Reviews.Postgres
use lean_lang_chain.Gateway.Reviews.Postgres.{Row, ReviewTable, rows, with_decision}
use lean_lang_chain.Gateway.Reviews.Agreement.{answers-postgres}
use lean_lang_chain.Gateway.Paths.{Router, SessionAction, session}
use lean_lang_chain.Gateway.Paths.Read.{target_at, target_at-path_of}
use lean_lang_chain.Gateway.Paths.Sent.{Transfer, all_unreserved, is_unreserved}
use lean_lang_chain.Gateway.Paths.Served.{target_of, request_of-served}
use lean_lang_chain.Sdk.Methods.{get_goal, request_of}
use lean_lang_chain.Policy.Events.{RawEvent, dict, other, validate_events}
use lean_lang_chain.Policy.Events.Typed.{AreEvents, validate_events-AreEvents}
use lean_lang_chain.Config.{Setup, ReviewStoreMode, resolve_review_store}
use lean_lang_chain.Gateway.Health.{ready, fail_on_degraded}
use lean_lang_chain.Gateway.Health.Answers.{is_down, ready-status}

-- the lists of a server
abbrev lists : ListServer (String → List String)
lists = record {
  rpush = λ k v s j. if k == j then s k ++ v ∷ [] else s j;
  lpop = λ k s. (head? (s k), λ j. if k == j then tail (s k) else s j);
  llen = λ k s. length (s k);
  held = λ k s. s k;
  held-rpush = λ k j v s. refl;
  lpop-head = λ k s. refl;
  held-lpop = λ k j s. refl;
  llen-held = λ k s. refl;
}

abbrev no_dumps : Fields → String
no_dumps fs = ""

abbrev queue_calls : List Redis.Op
queue_calls =
    Redis.put "q" (plain "a") ∷ Redis.put "p" (plain "b") ∷ Redis.take "q" ∷ Redis.count "q" ∷ []

answers-redis_example :
    answers (Redis.redis_call lists no_dumps) (λ k. []) queue_calls
    ≡ answers (Redis.memory_call no_dumps) [] queue_calls
answers-redis_example = answers-redis lists no_dumps queue_calls (λ k. []) (λ name. refl)

queue_answers :
    answers (Redis.memory_call no_dumps) [] queue_calls
    ≡ Redis.nothing ∷ Redis.nothing ∷ Redis.taken (some "a") ∷ Redis.counted 0 ∷ []
unfolding answers Redis.memory_call
queue_answers = refl

-- the rows of a table
abbrev table : ReviewTable (String → Option Row)
table = record {
  jsonb = λ p. p;
  select = λ t s. s t;
  upsert = λ t p s u. if t == u then some (record { payload = p; decision = none }) else s u;
  update = λ d t s. (rows (s t), λ u. if t == u then with_decision d (s t) else s u);
  remove = λ t s. (rows (s t), λ u. if t == u then none else s u);
  select-upsert = λ t u p s. refl;
  update-rows = λ d t s. refl;
  select-update = λ d t u s. refl;
  remove-rows = λ t s. refl;
  select-remove = λ t u s. refl;
}

abbrev review_calls : List Postgres.Op
review_calls =
    Postgres.save "t" end
    ∷ Postgres.settle "t" ReviewDecision.approved
    ∷ Postgres.fetch "t"
    ∷ Postgres.read "t"
    ∷ Postgres.drop "t"
    ∷ Postgres.drop "t"
    ∷ []

answers-postgres_example :
    answers (Postgres.postgres_call table) (λ t. none) review_calls
    ≡ answers (Postgres.memory_call (λ p. p)) [] review_calls
answers-postgres_example = answers-postgres table review_calls (λ t. none) (λ t. refl)

review_answers :
    answers (Postgres.memory_call (λ p. p)) [] review_calls
    ≡ Postgres.nothing
      ∷ Postgres.found true
      ∷ Postgres.fetched (some (record { payload = end; decision = some "approved" }))
      ∷ Postgres.payload (some (field "status" (str "approved") end))
      ∷ Postgres.found true
      ∷ Postgres.found false
      ∷ []
unfolding answers Postgres.memory_call set
review_answers = refl

abbrev router : Router
router = record {
  serve = λ m path. target_at (split b'/' path);
  serve-path_of = λ t h alone. target_at-path_of t h;
}

abbrev transfer : Transfer
transfer = record { arrives = λ path. path; arrives-clean = λ path clean whole. refl }

request_of-served_example :
    router.serve
      (request_of (get_goal "s1" end)).method
      (transfer.arrives (request_of (get_goal "s1" end)).path)
    ≡ some (session SessionAction.goal "s1")
unfolding target_of all_unreserved is_unreserved
request_of-served_example =
    request_of-served transfer router (get_goal "s1" end) (session SessionAction.goal "s1") refl
      (refl, refl)

abbrev events : List RawEvent
events = dict (field "kind" (str "claim") (field "actor" (str "a") end)) ∷ other ∷ []

validate_events-AreEvents_example :
    AreEvents (validate_events events)
    × (validate_events (map dict (validate_events events)) ≡ validate_events events)
validate_events-AreEvents_example = validate_events-AreEvents events

abbrev postgres_env : Env
postgres_env name =
    if name == "REVIEW_STORE"
    then some "postgres"
    else if name == "DATABASE_URL"
    then some "db"
    else none

abbrev setup : Setup
setup = record {
  env = postgres_env;
  test_transport = false;
  test_auditor = false;
  test_checker = false;
}

-- the database does not answer
ready-status_example :
    ((ready (λ uri. false) "0.1.0" setup).status
      ≡ (if is_down (λ uri. false) setup then 503 else 200))
    × (get "status" (ready (λ uri. false) "0.1.0" setup).body ≡ str "ready")
unfolding fail_on_degraded lower strip
ready-status_example = ready-status (λ uri. false) "0.1.0" setup refl refl

-- a blank address: the store is in Postgres, and the probe asks no database
abbrev blank_env : Env
blank_env name = if name == "DATABASE_URL" then some " " else postgres_env name

blank_test :
    (resolve_review_store blank_env ≡ ReviewStoreMode.postgres)
    × ((ready (λ uri. false) "0.1.0" (record setup { env = blank_env })).status ≡ 200)
unfolding ready lower strip resolve_review_store
blank_test = (refl, refl)

ready_test : (ready (λ uri. false) "0.1.0" setup).status ≡ 503
unfolding ready lower strip
ready_test = refl
