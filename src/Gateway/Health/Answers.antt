-- ===== src/Gateway/Health/Answers.antt =====
-- What the probe of readiness says, against what it answers.
use lean_lang_chain.Common.{
  String, Bool, true, false, not, ◌&&◌, ◌||◌, Option, none, some, ◌≡◌, refl, sym, subst, ◌==◌,
  if◌then◌else◌, Bool-cases, inl, inr,
}
use lean_lang_chain.Text.{strip}
use lean_lang_chain.Json.{str, get, get_or, set}
use lean_lang_chain.Gateway.Runners.{Env, or_default}
use lean_lang_chain.Config.{
  Setup, Snapshot, ReviewStoreMode, is_set, compute_capability_snapshot, resolve_review_store,
}
use lean_lang_chain.Gateway.Health.{ready, ready_answer, ready_check, fail_on_degraded, review_uri}

abbrev pub is_postgres : ReviewStoreMode → Bool
is_postgres ReviewStoreMode.postgres = true
is_postgres ReviewStoreMode.memory = false

-- the address that a store in Postgres is opened with
abbrev pub store_uri : Env → String
store_uri env =
    if is_set (env "REVIEW_STORE_POSTGRES_URI")
    then or_default "" (env "REVIEW_STORE_POSTGRES_URI")
    else or_default "" (env "DATABASE_URL")

-- The gateway keeps its reviews in Postgres, and the database of that store does not answer.
abbrev pub is_down : (String → Bool) → Setup → Bool
is_down reachable s = is_postgres (resolve_review_store s.env) && not (reachable (store_uri s.env))

settled :
    (p e x : Bool)
    → not (if not p then true else if e then true else x)
      ≡ is_postgres (if p && not e then ReviewStoreMode.postgres else ReviewStoreMode.memory)
        && not x
settled true true x = refl
settled true false x = refl
settled false e x = refl

-- the probe's test on the three variables
uri-down :
    (a u d : Option String) (f : String → Bool)
    → (let uri = if is_set u then or_default "" u else or_default "" d in strip uri ≡ uri)
    → (let asked = if is_set u then or_default "" u else strip (or_default "" d) in
        not (
          if not (or_default "" a == "postgres")
          then true
          else if asked == ""
          then true
          else f asked))
      ≡ is_postgres (
          if or_default "memory" a == "postgres" && (is_set u || is_set d)
          then ReviewStoreMode.postgres
          else ReviewStoreMode.memory)
        && not (f (if is_set u then or_default "" u else or_default "" d))
uri-down none u d f h = refl
uri-down (some r) none none f h = rw h (settled (r == "postgres") true (f ""))
uri-down (some r) none (some w) f h = rw h (settled (r == "postgres") (w == "") (f w))
uri-down (some r) (some v) none f h = elim (Bool-cases (v == "")) [
  | inl e ↦ let h' : strip "" ≡ "" = rw e at h in rw (e, h') (settled (r == "postgres") true (f ""))
  | inr n ↦ rw (n, n) (settled (r == "postgres") false (f v))
]
uri-down (some r) (some v) (some w) f h = elim (Bool-cases (v == "")) [
  | inl e ↦
      let h' : strip w ≡ w = rw e at h in rw (e, h') (settled (r == "postgres") (w == "") (f w))
  | inr n ↦ rw (n, n) (settled (r == "postgres") false (f v))
]

ready_check-is_down :
    (reachable : String → Bool) (s : Setup)
    → strip (store_uri s.env) ≡ store_uri s.env
    → not (ready_check reachable s.env) ≡ is_down reachable s
unfolding ready_check review_uri resolve_review_store
ready_check-is_down reachable s h =
    uri-down (s.env "REVIEW_STORE") (s.env "REVIEW_STORE_POSTGRES_URI") (s.env "DATABASE_URL")
      reachable h

answer-status :
    (is_ready : Bool) (version : String) (snap : Snapshot)
    → ((ready_answer false is_ready version snap).status ≡ (if not is_ready then 503 else 200))
      × (get "status" (ready_answer false is_ready version snap).body ≡ str "ready")
unfolding ready_answer get_or set
answer-status true version snap = (refl, refl)
answer-status false version snap = (refl, refl)

-- Where the environment does not ask for a failure on degraded capabilities, and the address of the
-- store has no blanks at its ends, the probe answers 503 exactly when the gateway keeps its reviews in
-- Postgres and the database of that store does not answer, and 200 otherwise; in both cases its body
-- gives the status "ready".
pub ready-status :
    (reachable : String → Bool) (version : String) (s : Setup)
    → fail_on_degraded s.env ≡ false
    → strip (store_uri s.env) ≡ store_uri s.env
    → ((ready reachable version s).status ≡ (if is_down reachable s then 503 else 200))
      × (get "status" (ready reachable version s).body ≡ str "ready")
unfolding ready
ready-status reachable version s h clean = rw (← ready_check-is_down reachable s clean) (
    subst
      (λ f.
        ((ready_answer f (ready_check reachable s.env) version
            (compute_capability_snapshot s)).status
          ≡ (if not (ready_check reachable s.env) then 503 else 200))
        × (get "status"
              (ready_answer f (ready_check reachable s.env) version
                (compute_capability_snapshot s)).body
            ≡ str "ready"))
      (sym h) (answer-status (ready_check reachable s.env) version (compute_capability_snapshot s)))
