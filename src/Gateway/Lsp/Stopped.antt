-- ===== src/Gateway/Lsp/Stopped.antt =====
-- What becomes of the processes of server/lsp_client.py: one that is dropped, and one that is started.
use lean_lang_chain.Common.{
  ℕ, String, ◌≡◌, refl, subst, sym, Bool, true, false, ◌||◌, Option, none, some, List, [], ◌∷◌,
  ◌==◌, eq_iff, arith, Bool-cases, inl, inr, length, Result, ok, raise, ◌&&◌, not,
}
use lean_lang_chain.Glob.{◌=ᶜ◌}
use lean_lang_chain.Gateway.Map.{lookup, lookup-store, lookup-erase}
use lean_lang_chain.Gateway.Lsp.Evicted.{
  holds, ended, accounted, or_mono, make_room-accounted, make_room-ended,
}
use lean_lang_chain.Gateway.Lsp.{
  Server, Client, Alive, add, create, make_room, with_ended, reuse_or_create, get_or_create, erase,
  start_lsp, Startup, process_of,
}

-- whether a call returned
abbrev pub is_ok : Result (Option ℕ) → Bool
is_ok (ok q) = true
is_ok (raise e) = false

abbrev pub is_process : ℕ → Option ℕ → Bool
is_process p none = false
is_process p (some q) = q =ᶜ p

-- the entry of a workspace has a process that runs
abbrev pub is_live : Alive → Option Server → Bool
is_live alive none = false
is_live alive (some s) = alive s.proc

-- the request for the workspace `k` starts the process, for the workspace `j`, and returns
abbrev pub launched : Alive → ℕ → (k j : String) → ℕ → Startup → Client → Bool
launched alive p k j now u c =
    (k == j)
    && not (is_live alive (lookup k c.cache))
    && is_process p u.popen
    && is_ok (get_or_create alive k now u c).0

or_right : (a : Bool) {b : Bool} → b ≡ true → (a || b) ≡ true
or_right true h = refl
or_right false h = h

or_left : {a : Bool} (b : Bool) → a ≡ true → (a || b) ≡ true
or_left b h = rw h refl

all_four :
    (a b c d : Bool)
    → (a && not b && c && d) ≡ true
    → (a ≡ true) × (b ≡ false) × (c ≡ true) × (d ≡ true)
all_four a b c d h = (ground arith, ground arith, ground arith, ground arith)

module _ (alive : Alive) (p : ℕ) where
  with_ended-old : (new ps : List ℕ) → ended p ps ≡ true → ended p (with_ended new ps) ≡ true
  with_ended-old [] ps h = h
  with_ended-old (q ∷ new) ps h = ground (arith, with_ended-old new ps)

  -- A new process for one workspace leaves the entries of the others.
  add-holds :
      (k j : String) (now : ℕ) (q : Option ℕ) (m : List (String × Server))
      → (k == j) ≡ false
      → lookup j (add k now q m) ≡ lookup j m
  add-holds k j now none m h = refl
  add-holds k j now (some q) m h =
      rw (lookup-store k j (record { proc = q; last_used = now }) m, h) refl

  create-accounted :
      (k j : String) (now : ℕ) (start : Result (Option ℕ) × List ℕ) (c : Client)
      → (k == j) ≡ false
      → alive p ≡ true
      → accounted j p c ≡ true
      → accounted j p (create alive k now start c).1 ≡ true
  unfolding create
  create-accounted k j now (started, failed) c other live h =
      let c' = make_room (length c.cache) alive c in
      rw (add-holds k j now (process_of started) c'.cache other) (
        or_mono (holds p (lookup j c'.cache))
          (make_room-accounted alive p (length c.cache) j c live h)
          (with_ended-old failed c'.terminated))

  create-ended :
      (k j : String) (now : ℕ) (start : Result (Option ℕ) × List ℕ) (c : Client)
      → ended p c.terminated ≡ true
      → accounted j p (create alive k now start c).1 ≡ true
  unfolding create
  create-ended k j now (started, failed) c h =
      let c' = make_room (length c.cache) alive c in
      or_right (holds p (lookup j (add k now (process_of started) c'.cache)))
        (with_ended-old failed c'.terminated (make_room-ended alive p (length c.cache) c h))

  -- The entry of the workspace itself: a running process stays, and a dead one is forgotten.
  reuse_or_create_self :
      (k : String) (now : ℕ) (start : Result (Option ℕ) × List ℕ) (c : Client)
      (found : Option Server)
      → lookup k c.cache ≡ found
      → alive p ≡ true
      → (holds p found || ended p c.terminated) ≡ true
      → accounted k p (reuse_or_create alive k now start c found).1 ≡ true
  unfolding reuse_or_create
  reuse_or_create_self k now start c none e live h = create-ended k k now start c h
  reuse_or_create_self k now start c (some s) e live h = elim (Bool-cases (alive s.proc)) [
    | inl runs ↦
        rw runs
          (rw (lookup-store k k (record s { last_used = now }) c.cache, (eq_iff k k).1 refl) h)
    | inr dead ↦
        rw dead (create-ended k k now start (record c { cache = erase k c.cache }) (ground arith))
  ]

  reuse_or_create-other :
      (k j : String) (now : ℕ) (start : Result (Option ℕ) × List ℕ) (c : Client)
      (found : Option Server)
      → (k == j) ≡ false
      → alive p ≡ true
      → accounted j p c ≡ true
      → accounted j p (reuse_or_create alive k now start c found).1 ≡ true
  unfolding reuse_or_create
  reuse_or_create-other k j now start c none other live h =
      create-accounted k j now start c other live h
  reuse_or_create-other k j now start c (some s) other live h = elim (Bool-cases (alive s.proc)) [
    | inl runs ↦ rw runs (rw (lookup-store k j (record s { last_used = now }) c.cache, other) h)
    | inr dead ↦ rw dead (
        create-accounted k j now start (record c { cache = erase k c.cache }) other live
          (rw (lookup-erase k j c.cache, other) h))
  ]

  kept-accounted :
      (k j : String) (now : ℕ) (u : Startup) (c : Client)
      → alive p ≡ true
      → accounted j p c ≡ true
      → accounted j p (get_or_create alive k now u c).1 ≡ true
  unfolding get_or_create
  kept-accounted k j now u c live h = elim (Bool-cases (k == j)) [
    | inl same ↦
        subst
          (λ i.
            accounted i p (reuse_or_create alive k now (start_lsp u) c (lookup k c.cache)).1 ≡ true)
          ((eq_iff k j).0 same)
          (reuse_or_create_self k now (start_lsp u) c (lookup k c.cache) refl live
            (subst (λ i. accounted i p c ≡ true) (sym ((eq_iff k j).0 same)) h))
    | inr other ↦ reuse_or_create-other k j now (start_lsp u) c (lookup k c.cache) other live h
  ]

  -- a start that does not raise hands its process out or ends it
  start_lsp-settled :
      (u : Startup)
      → is_process p u.popen ≡ true
      → is_ok (start_lsp u).0 ≡ true
      → (is_process p (process_of (start_lsp u).0) || ended p (start_lsp u).1) ≡ true
  unfolding start_lsp
  start_lsp-settled u h k = ground arith

  with_ended-new : (new ps : List ℕ) → ended p new ≡ true → ended p (with_ended new ps) ≡ true
  with_ended-new [] ps h = cc
  with_ended-new (q ∷ new) ps h = ground (arith, with_ended-new new ps)

  holds-add :
      (k : String) (now : ℕ) (q : Option ℕ) (m : List (String × Server))
      → is_process p q ≡ true
      → holds p (lookup k (add k now q m)) ≡ true
  holds-add k now none m h = cc
  holds-add k now (some q) m h =
      rw (lookup-store k k (record { proc = q; last_used = now }) m, (eq_iff k k).1 refl) h

  create-launched :
      (k : String) (now : ℕ) (start : Result (Option ℕ) × List ℕ) (c : Client)
      → (is_process p (process_of start.0) || ended p start.1) ≡ true
      → accounted k p (create alive k now start c).1 ≡ true
  unfolding create
  create-launched k now (started, failed) c h =
      let c' = make_room (length c.cache) alive c in
      elim (Bool-cases (is_process p (process_of started))) [
        | inl t ↦
            or_left (ended p (with_ended failed c'.terminated))
              (holds-add k now (process_of started) c'.cache t)
        | inr f ↦
            or_right (holds p (lookup k (add k now (process_of started) c'.cache)))
              (with_ended-new failed c'.terminated (rw f at h))
      ]

  reuse_or_create-launched :
      (k : String) (now : ℕ) (u : Startup) (c : Client) (found : Option Server)
      → is_live alive found ≡ false
      → is_process p u.popen ≡ true
      → is_ok (reuse_or_create alive k now (start_lsp u) c found).0 ≡ true
      → accounted k p (reuse_or_create alive k now (start_lsp u) c found).1 ≡ true
  unfolding reuse_or_create create
  reuse_or_create-launched k now u c none l h o =
      create-launched k now (start_lsp u) c (start_lsp-settled u h o)
  reuse_or_create-launched k now u c (some s) l h o = rw l (
      create-launched k now (start_lsp u) (record c { cache = erase k c.cache })
        (start_lsp-settled u h (rw l at o)))

  -- A request for one workspace leaves no running process unaccounted for: each one that was in the
  -- cache under its workspace, or that the client had ended, is so still, whether the request raises or
  -- not; and where it does not raise, so is the process that it starts.
  pub get_or_create-accounted :
      (k j : String) (now : ℕ) (u : Startup) (c : Client)
      → alive p ≡ true
      → (accounted j p c || launched alive p k j now u c) ≡ true
      → accounted j p (get_or_create alive k now u c).1 ≡ true
  unfolding get_or_create
  get_or_create-accounted k j now u c live h = elim (Bool-cases (accounted j p c)) [
    | inl old ↦ kept-accounted k j now u c live old
    | inr new ↦
        let l : launched alive p k j now u c ≡ true = rw new at h in
        let (same, dead, own, returned) = all_four (k == j) _ _ _ l in
        subst (λ i. accounted i p (get_or_create alive k now u c).1 ≡ true) ((eq_iff k j).0 same)
          (reuse_or_create-launched k now u c (lookup k c.cache) dead own returned)
  ]
