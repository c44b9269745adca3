-- ===== src/Gateway/Queues/Redis.antt =====
-- apps/lean-gateway/lean_langchain_gateway/coordination/queue.py: RedisCoordinationBackend and the choice of
-- a backend. The server is a parameter, with what Redis documents of RPUSH, LPOP and LLEN.
use Prim.Native.String.{◌++◌ as text_append}
use text.Mathlib.TextLemmas.{append_cancel_left}
use lean_lang_chain.Common.{
  ℕ, String, Bool, true, Option, none, some, List, [], ◌∷◌, ◌++◌, length, ◌≡◌, refl, ap, sym, ◌∙◌,
  if◌then◌else◌, ◌==◌, arith, eq_iff,
}
use lean_lang_chain.Common.Runs.{answers, answers-simulated}
use lean_lang_chain.Json.{Fields}
use lean_lang_chain.Gateway.Map.{lookup}
use lean_lang_chain.Gateway.Runners.{Env}
use lean_lang_chain.Mcp.Store.{or_else}
use lean_lang_chain.Gateway.Queues.{
  Queues, Item, item_text, queue, enqueue, dequeue, queue_length, contents, head?, tail,
  contents-queue, contents-enqueue, dequeue_lem,
}

-- a server in the states `S`; `held` is the list that a key holds, empty where there is none
pub record ListServer (S : Type 0) : Type 0 where
  pub rpush : String → String → S → S
  pub lpop : String → S → Option String × S
  pub llen : String → S → ℕ
  pub held : String → S → List String
  pub held-rpush :
      (k j v : String) (s : S)
      → held j (rpush k v s) ≡ (if k == j then held k s ++ v ∷ [] else held j s)
  pub lpop-head : (k : String) (s : S) → (lpop k s).0 ≡ head? (held k s)
  pub held-lpop :
      (k j : String) (s : S) → held j (lpop k s).1 ≡ (if k == j then tail (held k s) else held j s)
  pub llen-held : (k : String) (s : S) → llen k s ≡ length (held k s)

-- a call of a backend, and what it returns
pub data Op : Type 0 where
  put : String → Item → Op
  take : String → Op
  count : String → Op

pub data Answer : Type 0 where
  nothing : Answer
  taken : Option String → Answer
  counted : ℕ → Answer

-- the in-memory backend; a count makes the queue, too
unfoldable pub memory_call : (Fields → String) → Queues → Op → Answer × Queues
unfolding enqueue dequeue queue_length queue
memory_call dumps qs (put name value) = (nothing, enqueue dumps name value qs)
memory_call dumps qs (take name) = (taken (dequeue name qs).0, (dequeue name qs).1)
memory_call dumps qs (count name) = (counted (queue_length name qs), (queue name qs).1)

-- `_key`
abbrev pub key : String → String
key name = text_append "obr:queue:" name

unfoldable pub redis_call : {S : Type 0} → ListServer S → (Fields → String) → S → Op → Answer × S
redis_call server dumps s (put name value) =
    (nothing, server.rpush (key name) (item_text dumps value) s)
redis_call server dumps s (take name) =
    (taken (server.lpop (key name) s).0, (server.lpop (key name) s).1)
redis_call server dumps s (count name) = (counted (server.llen (key name) s), s)

-- `get_redis_url`
unfoldable pub get_redis_url : Env → Option String
get_redis_url env = or_else (or_else (env "OBR_REDIS_URL") (env "REDIS_URL")) none

pub data Backend : Type 0 where
  redis : (url : String) → Backend
  memory : Backend

abbrev redis_or_memory : Bool → Option String → Backend
redis_or_memory true (some url) = redis url
redis_or_memory _ _ = memory

-- `get_coordination_backend`; the package of Redis may not be there
unfoldable pub get_coordination_backend : Env → (has_redis : Bool) → Backend
unfolding get_redis_url
get_coordination_backend env has_redis = redis_or_memory has_redis (get_redis_url env)

key-eq : (k j : String) → (key k == key j) ≡ (k == j)
key-eq k j = ground (arith, eq_iff k j, eq_iff (key k) (key j), append_cancel_left "obr:queue:" k j)

module _ {S : Type 0} (server : ListServer S) (dumps : Fields → String) where
  -- each queue holds the same on both sides
  abbrev Agree : Queues → S → Type 0
  Agree qs s = (name : String) → contents name qs ≡ server.held (key name) s

  put-Agree :
      (qs : Queues) (s : S) (name : String) (value : Item)
      → Agree qs s
      → Agree (enqueue dumps name value qs) (server.rpush (key name) (item_text dumps value) s)
  put-Agree qs s name value h other =
      rw
        (
          contents-enqueue dumps name other value qs,
          server.held-rpush (key name) (key other) (item_text dumps value) s,
          key-eq name other,
          h name,
          h other,
        )
        refl

  take-Agree :
      (qs : Queues) (s : S) (name : String)
      → Agree qs s
      → Agree (dequeue name qs).1 (server.lpop (key name) s).1
  take-Agree qs s name h other =
      rw
        (
          (dequeue_lem name other qs).1,
          server.held-lpop (key name) (key other) s,
          key-eq name other,
          h name,
          h other,
        )
        refl

  count-Agree : (qs : Queues) (s : S) (name : String) → Agree qs s → Agree (queue name qs).1 s
  count-Agree qs s name h other = (contents-queue name other qs (lookup name qs) refl).1 ∙ h other

  count-answers :
      (qs : Queues) (s : S) (name : String)
      → Agree qs s
      → queue_length name qs ≡ server.llen (key name) s
  unfolding queue_length
  count-answers qs s name h =
      rw
        (
          (contents-queue name name qs (lookup name qs) refl).0,
          h name,
          server.llen-held (key name) s,
        )
        refl

  call-answers :
      (op : Op) (qs : Queues) (s : S)
      → Agree qs s
      → ((memory_call dumps qs op).0 ≡ (redis_call server dumps s op).0)
        × Agree (memory_call dumps qs op).1 (redis_call server dumps s op).1
  unfolding memory_call redis_call
  call-answers (put name value) qs s h = (refl, put-Agree qs s name value h)
  call-answers (take name) qs s h = (
    ap taken (rw ((dequeue_lem name name qs).0, server.lpop-head (key name) s, h name) refl),
    take-Agree qs s name h,
  )
  call-answers (count name) qs s h =
      (ap counted (count-answers qs s name h), count-Agree qs s name h)

  -- Whatever is called, in whatever order, the backend over Redis returns what the in-memory backend
  -- returns, where neither held an item at the start.
  pub answers-redis :
      (ops : List Op) (s : S)
      → ((name : String) → server.held (key name) s ≡ [])
      → answers (redis_call server dumps) s ops ≡ answers (memory_call dumps) [] ops
  unfolding contents
  answers-redis ops s empty = sym (
      answers-simulated Agree (memory_call dumps) (redis_call server dumps) call-answers ops [] s
        (λ name. sym (empty name)))
