-- ===== src/Gateway/Reviews/History.antt =====
-- The review store against the history of its requests.
use lean_lang_chain.Common.{
  String, ◌≡◌, refl, Option, none, some, List, [], ◌∷◌, ◌==◌, if◌then◌else◌, ap, arith, eq_iff, ◌∙◌,
}
use lean_lang_chain.Json.{Fields}
use lean_lang_chain.Gateway.Map.{lookup-store, lookup-erase}
use lean_lang_chain.Gateway.Reviews.{
  ReviewDecision, ReviewRecord, ReviewStore, get_record, create_pending_review, decide_review,
  delete, set_decision, put,
}
use mathlib.Core.List.{foldl}

pub data Request : Type 0 where
  create : String → Fields → Request
  decide : String → ReviewDecision → Request
  remove : String → Request

unfoldable pub handle : ReviewStore → Request → ReviewStore
unfolding create_pending_review decide_review delete
handle s (create thread payload) = (create_pending_review thread payload s).1
handle s (decide thread d) = (decide_review d thread s).1
handle s (remove thread) = (delete thread s).1

-- what one request does to the review of one thread
abbrev decided : ReviewDecision → Option ReviewRecord → Option ReviewRecord
decided d none = none
decided d (some r) = some (record { payload = r.payload; decision = some d })

abbrev pub thread_step : String → Option ReviewRecord → Request → Option ReviewRecord
thread_step t r (create thread payload) =
    if thread == t then some (record { payload = payload; decision = none }) else r
thread_step t r (decide thread d) = if thread == t then decided d r else r
thread_step t r (remove thread) = if thread == t then none else r

-- a decision on a thread, by what the store holds for it
decide-thread :
    (t thread : String) (d : ReviewDecision) (s : ReviewStore) (o : Option ReviewRecord)
    → get_record thread s ≡ o
    → get_record t (decide_review d thread s).1
      ≡ (if thread == t then decided d o else get_record t s)
unfolding decide_review set_decision
decide-thread t thread d s none h = rw (h, set_decision) (ground (arith, eq_iff thread t))
decide-thread t thread d s (some r) h =
    rw (h, set_decision)
      (unfold get_record in
        lookup-store thread t (record { payload = r.payload; decision = some d }) s)

remove-thread :
    (t thread : String) (s : ReviewStore) (o : Option ReviewRecord)
    → get_record thread s ≡ o
    → get_record t (delete thread s).1 ≡ (if thread == t then none else get_record t s)
unfolding delete
remove-thread t thread s none h = rw (h, delete) (ground (arith, eq_iff thread t))
remove-thread t thread s (some r) h = rw (h, delete) (unfold get_record in lookup-erase thread t s)

same-thread :
    (t thread : String) (d : ReviewDecision) (s : ReviewStore)
    → (if thread == t then decided d (get_record thread s) else get_record t s)
      ≡ (if thread == t then decided d (get_record t s) else get_record t s)
same-thread t thread d s = ground (arith, eq_iff thread t)

handle-thread :
    (t : String) (s : ReviewStore) (q : Request)
    → get_record t (handle s q) ≡ thread_step t (get_record t s) q
unfolding handle get_record put create_pending_review
handle-thread t s (create thread payload) = lookup-store thread t _ s
handle-thread t s (decide thread d) =
    decide-thread t thread d s (get_record thread s) refl ∙ same-thread t thread d s
handle-thread t s (remove thread) = remove-thread t thread s (get_record thread s) refl

-- After any requests, the record of a thread is what the requests of that thread make of the record
-- before them, and no other thread's requests count.
pub history-thread :
    (t : String) (qs : List Request) (s : ReviewStore)
    → get_record t (foldl handle s qs) ≡ foldl (thread_step t) (get_record t s) qs
history-thread t [] s = refl
history-thread t (q ∷ qs) s =
    history-thread t qs (handle s q) ∙ ap (λ r. foldl (thread_step t) r qs) (handle-thread t s q)
