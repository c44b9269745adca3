-- ===== src/Mcp/Postgres/Keyed.antt =====
-- Keys of session stores that name one session each.
use lean_lang_chain.Common.{
  String, Bool, true, false, ◌||◌, Option, none, some, List, [], ◌∷◌, ◌≡◌, refl, sym, ap, ◌∙◌, ◌==◌,
  if◌then◌else◌, eq_iff, arith, Bool-cases, inl, inr,
}
use lean_lang_chain.Gateway.Map.{lookup, store, erase, lookup-store, lookup-erase}
use lean_lang_chain.Mcp.Store.{
  SessionRecord, Data, Change, save, remove, store_thread, erase_thread, thread_of,
}
use lean_lang_chain.Mcp.Postgres.{Row, text_of, row_of, names}

-- the row that stands for a record that is there
abbrev pub stored_row : Option SessionRecord → Option Row
stored_row none = none
stored_row (some r) = some (row_of r)

abbrev pub only : String → Option Row → Option Row
only key none = none
only key (some r) = if names key r then some r else none

abbrev pub thread_text : Option Row → String
thread_text none = ""
thread_text (some r) = r.thread_id

pub lookup-set :
    (r : SessionRecord) (t : Option String) (key : String) (d : Data)
    → (key == "") ≡ false
    → lookup key (store_thread (λ k. k) t r (store r.session_id r d))
      ≡ (if r.session_id == key || text_of t == key then some r else lookup key d)
lookup-set r none key d n =
    ground (arith, lookup-store r.session_id key r d, eq_iff key "", eq_iff "" key)
lookup-set r (some t) key d n = ground (
  arith,
  lookup-store r.session_id key r d,
  lookup-store t key r (store r.session_id r d),
  eq_iff key "",
  eq_iff t "",
  eq_iff t key,
)

pub lookup-delete :
    (t : Option String) (session key : String) (d : Data)
    → (key == "") ≡ false
    → lookup key (erase_thread (λ k. k) t (erase session d))
      ≡ (if session == key || text_of t == key then none else lookup key d)
lookup-delete none session key d n =
    ground (arith, lookup-erase session key d, eq_iff key "", eq_iff "" key)
lookup-delete (some t) session key d n = ground (
  arith,
  lookup-erase session key d,
  lookup-erase t key (erase session d),
  eq_iff key "",
  eq_iff t "",
  eq_iff t key,
)

pub stored_row-if :
    (b : Bool) (x y : Option SessionRecord)
    → stored_row (if b then x else y) ≡ (if b then stored_row x else stored_row y)
stored_row-if true x y = refl
stored_row-if false x y = refl

pub thread_text-stored :
    (o : Option SessionRecord) → text_of (thread_of o) ≡ thread_text (stored_row o)
thread_text-stored none = refl
thread_text-stored (some r) = refl

pub some-injective : {a b : Row} → some a ≡ some b → a ≡ b
some-injective h = cc

pub same_text : (x : String) → (x == x) ≡ true
same_text x = (eq_iff x x).1 refl

-- the keys of a session whose row is `o`
abbrev pub is_key : String → Option Row → String → Bool
is_key session o key = session == key || thread_text o == key

module _ (owner thread : String → String) where
  -- a session is named by its own identifier and by its thread, and by no other key
  pub record OwnsThread (session : String) : Type 0 where
    pub own : owner session ≡ session
    pub threaded : (thread session == "") ≡ false → owner (thread session) ≡ session

  -- what the changes are asked: each key names one session, and a session keeps its thread
  abbrev pub IsKeyed : Change → Type 0
  IsKeyed (save r) = OwnsThread r.session_id × (text_of r.thread_id ≡ thread r.session_id)
  IsKeyed (remove session) = ((session == "") ≡ false) × (owner session ≡ session)

  abbrev pub AllKeyed : List Change → Type 0
  AllKeyed [] = Unit {0}
  AllKeyed (c ∷ cs) = IsKeyed c × AllKeyed cs

  pub record Fits (session : String) (r : Row) : Type 0 where
    pub named : r.session_id ≡ session
    pub owns : OwnsThread session
    pub kept : r.thread_id ≡ thread session

  -- the owner of a key that names a row is the session of the row
  pub names-owner :
      (key session : String) (r : Row)
      → (key == "") ≡ false
      → Fits session r
      → names key r ≡ true
      → owner key ≡ session
  names-owner key session r n f h = elim (Bool-cases (r.session_id == key)) [
    | inl e ↦ ap owner (sym ((eq_iff r.session_id key).0 e) ∙ f.named) ∙ f.owns.own
    | inr e ↦
        (let q = (eq_iff r.thread_id key).0 (rw e at h) in
          let k = sym q ∙ f.kept in ap owner k ∙ f.owns.threaded (rw k at n))
  ]

  -- rows of one session have the same names
  same-names :
      (key session : String) (r q : Row)
      → Fits session r
      → Fits session q
      → names key r ≡ names key q
  same-names key session r q f g = rw (f.named, f.kept, g.named, g.kept) refl

  pub only-same :
      (key session : String) (r : Row) (o : Option Row)
      → Fits session r
      → ((q : Row) → o ≡ some q → Fits session q)
      → names key r ≡ false
      → only key o ≡ none
  only-same key session r none f g h = refl
  only-same key session r (some q) f g h =
      rw (sym (same-names key session r q f (g q refl)), h) refl

  pub saved-Fits : (r : SessionRecord) → IsKeyed (save r) → Fits r.session_id (row_of r)
  saved-Fits r (o, k) = record { named = refl; owns = o; kept = k }

  pub is_key-owner :
      (session key : String) (o : Option Row)
      → (key == "") ≡ false
      → owner session ≡ session
      → ((r : Row) → o ≡ some r → Fits session r)
      → is_key session o key ≡ true
      → owner key ≡ session
  is_key-owner session key none n own f h = elim (Bool-cases (session == key)) [
    | inl e ↦ ap owner (sym ((eq_iff session key).0 e)) ∙ own
    | inr e ↦
        absurd (let q = (eq_iff "" key).0 (rw e at h) in let z = (eq_iff key "").1 (sym q) in cc)
  ]
  is_key-owner session key (some r) n own f h =
      names-owner key session r n (f r refl) (rw (f r refl).named h)

  pub is_key-only :
      (session key : String) (o : Option Row)
      → ((r : Row) → o ≡ some r → Fits session r)
      → is_key session o key ≡ false
      → only key o ≡ none
  is_key-only session key none f h = refl
  is_key-only session key (some r) f h = rw ((f r refl).named, h) refl

  pub only-own :
      (session : String) (o : Option Row)
      → ((r : Row) → o ≡ some r → Fits session r)
      → only session o ≡ o
  only-own session none f = refl
  only-own session (some r) f = rw ((f r refl).named, same_text session) refl
