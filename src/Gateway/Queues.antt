-- ===== src/Gateway/Queues.antt =====
-- apps/lean-gateway/lean_langchain_gateway/coordination/queue.py: the in-memory backend, and in
-- Redis the other one.
pub mod Redis
use mathlib.Core.List.{append_assoc, append-nil}
use lean_lang_chain.Common.{
  ℕ, zero, suc, String, Option, none, some, List, [], ◌∷◌, ◌++◌, length, ◌≡◌, if◌then◌else◌, ◌==◌,
  arith, eq_iff,
}
use lean_lang_chain.Common.{refl, ap, ◌∙◌, sym, map, ◌≤◌, ◌+◌, zero, suc}
use lean_lang_chain.Json.{Fields}
use lean_lang_chain.Gateway.Map.{lookup, store, lookup-store}

abbrev pub Queues : Type 0
Queues = List (String × List String)

-- a text, or a dictionary that `json.dumps` makes one
pub data Item : Type 0 where
  plain : String → Item
  dict : Fields → Item

abbrev pub item_text : (Fields → String) → Item → String
item_text dumps (plain s) = s
item_text dumps (dict fs) = dumps fs

abbrev pub or_empty : Option (List String) → List String
or_empty none = []
or_empty (some q) = q

-- `_queue`: a queue that is not there is made empty
unfoldable pub queue : String → Queues → List String × Queues
unfolding lookup store
queue name qs = elim (lookup name qs) [ some q ↦ (q, qs) | none ↦ ([], store name [] qs) ]

unfoldable pub enqueue : (Fields → String) → String → Item → Queues → Queues
unfolding queue store
enqueue dumps name value qs =
    let (q, qs') = queue name qs in store name (q ++ item_text dumps value ∷ []) qs'

unfoldable pub dequeue : String → Queues → Option String × Queues
unfolding queue store
dequeue name qs =
    let (q, qs') = queue name qs in
    elim q [ [] ↦ (none, qs') | s ∷ rest ↦ (some s, store name rest qs') ]

unfoldable pub queue_length : String → Queues → ℕ
unfolding queue
queue_length name qs = length (queue name qs).0

-- what a queue holds
unfoldable pub contents : String → Queues → List String
unfolding lookup
contents name qs = or_empty (lookup name qs)

unfoldable pub enqueue_all : (Fields → String) → String → List Item → Queues → Queues
enqueue_all dumps name [] qs = qs
enqueue_all dumps name (v ∷ vs) qs = enqueue_all dumps name vs (enqueue dumps name v qs)

-- that many calls of `dequeue`, as long as they return an item
unfoldable pub drain : ℕ → String → Queues → List String
drain zero name qs = []
drain (suc n) name qs =
    let rest = drain n name (dequeue name qs).1 in
    elim (dequeue name qs).0 [ none ↦ [] | some s ↦ s ∷ rest ]

abbrev pub head? : List String → Option String
head? [] = none
head? (s ∷ ss) = some s

abbrev pub tail : List String → List String
tail [] = []
tail (s ∷ ss) = ss

contents-store :
    (name other : String) (q : List String) (qs : Queues)
    → contents other (store name q qs) ≡ (if name == other then q else contents other qs)
unfolding contents
contents-store name other q qs = ground (arith, eq_iff name other, lookup-store name other q qs)

-- making a queue empty does not change what is held
contents-new :
    (name other : String) (qs : Queues)
    → lookup name qs ≡ none
    → contents other (store name [] qs) ≡ contents other qs
unfolding contents
contents-new name other qs h = ground (arith, eq_iff name other, lookup-store name other [] qs)

pub contents-queue :
    (name other : String) (qs : Queues) (o : Option (List String))
    → lookup name qs ≡ o
    → ((queue name qs).0 ≡ contents name qs)
      × (contents other (queue name qs).1 ≡ contents other qs)
unfolding queue contents
contents-queue name other qs none h =
    (rw (h, queue) refl, rw (h, queue) (contents-new name other qs h))
contents-queue name other qs (some q) h = (rw (h, queue) refl, rw (h, queue) refl)

-- Enqueueing puts the item at the end of its queue and leaves every other queue as it is.
pub contents-enqueue :
    (dumps : Fields → String) (name other : String) (value : Item) (qs : Queues)
    → contents other (enqueue dumps name value qs) ≡ (
        if name == other then contents name qs ++ item_text dumps value ∷ [] else contents other qs)
unfolding enqueue
contents-enqueue dumps name other value qs =
    let (p, r) = contents-queue name other qs (lookup name qs) refl in
    contents-store name other _ (queue name qs).1 ∙ rw (p, r) refl

-- Dequeueing returns the first item of its queue, if any, takes just that item away, and leaves
-- every other queue as it is.
pub dequeue_lem :
    (name other : String) (qs : Queues)
    → ((dequeue name qs).0 ≡ head? (contents name qs))
      × (contents other (dequeue name qs).1
          ≡ (if name == other then tail (contents name qs) else contents other qs))
unfolding dequeue
dequeue_lem name other qs =
    let (p, r) = contents-queue name other qs (lookup name qs) refl in go (queue name qs).0 refl p r
  where
    go :
        (q : List String)
        → (queue name qs).0 ≡ q
        → (queue name qs).0 ≡ contents name qs
        → contents other (queue name qs).1 ≡ contents other qs
        → ((dequeue name qs).0 ≡ head? (contents name qs))
          × (contents other (dequeue name qs).1
              ≡ (if name == other then tail (contents name qs) else contents other qs))
    go [] h p r =
        let e : contents name qs ≡ [] = sym p ∙ h in
        (rw (h, dequeue) (rw e refl), rw (h, dequeue) (r ∙ ground (arith, eq_iff name other)))
    go (s ∷ ss) h p r =
        let e : contents name qs ≡ s ∷ ss = sym p ∙ h in
        (
          rw (h, dequeue) (rw e refl),
          rw (h, dequeue) (contents-store name other ss (queue name qs).1 ∙ rw (e, r) refl),
        )

contents-enqueue-same :
    (dumps : Fields → String) (name : String) (value : Item) (qs : Queues)
    → contents name (enqueue dumps name value qs) ≡ contents name qs ++ item_text dumps value ∷ []
contents-enqueue-same dumps name value qs =
    ground (arith, contents-enqueue dumps name name value qs, eq_iff name name)

contents-dequeue-same :
    (name : String) (qs : Queues) → contents name (dequeue name qs).1 ≡ tail (contents name qs)
contents-dequeue-same name qs = ground (arith, (dequeue_lem name name qs).1, eq_iff name name)

length-map : {A B : Type 0} (f : A → B) (xs : List A) → length (map f xs) ≡ length xs
length-map f [] = refl
length-map f (x ∷ xs) = ap suc (length-map f xs)

length-append : {A : Type 0} (xs ys : List A) → length (xs ++ ys) ≡ length xs + length ys
length-append [] ys = omega arith
length-append (x ∷ xs) ys = ap suc (length-append xs ys) ∙ omega arith

enqueue_all_lem :
    (dumps : Fields → String) (name : String) (vs : List Item) (qs : Queues)
    → contents name (enqueue_all dumps name vs qs) ≡ contents name qs ++ map (item_text dumps) vs
unfolding enqueue_all
enqueue_all_lem dumps name [] qs = sym (append-nil (contents name qs))
enqueue_all_lem dumps name (v ∷ vs) qs =
    enqueue_all_lem dumps name vs (enqueue dumps name v qs)
    ∙ ap (λ l. l ++ map (item_text dumps) vs) (contents-enqueue-same dumps name v qs)
    ∙ append_assoc (contents name qs) (item_text dumps v ∷ []) (map (item_text dumps) vs)

drain_lem :
    (n : ℕ) (name : String) (qs : Queues) (q : List String)
    → contents name qs ≡ q
    → length q ≤ n
    → drain n name qs ≡ q
unfolding drain
drain_lem zero name qs [] h l = refl
drain_lem zero name qs (s ∷ ss) h l = absurd (omega arith)
drain_lem (suc n) name qs [] h l = let (p, r) = dequeue_lem name name qs in rw (drain, p, h) refl
drain_lem (suc n) name qs (s ∷ ss) h l =
    let (p, r) = dequeue_lem name name qs in
    rw (drain, p, h)
      (ap (λ l. s ∷ l)
        (drain_lem n name (dequeue name qs).1 ss (contents-dequeue-same name qs ∙ rw h refl)
          (omega arith)))

-- Items that are enqueued come out in their order, after what the queue held before: enough calls
-- of dequeue return the old contents and then the new items.
pub drain-enqueue_all :
    (dumps : Fields → String) (n : ℕ) (name : String) (vs : List Item) (qs : Queues)
    → length (contents name qs) + length vs ≤ n
    → drain n name (enqueue_all dumps name vs qs) ≡ contents name qs ++ map (item_text dumps) vs
drain-enqueue_all dumps n name vs qs l =
    drain_lem n name (enqueue_all dumps name vs qs) _ (enqueue_all_lem dumps name vs qs) (
      omega (
        arith,
        length-append (contents name qs) (map (item_text dumps) vs),
        length-map (item_text dumps) vs,
      ))
