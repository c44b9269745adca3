-- ===== src/Tests/Tables.antt =====
-- A table of sessions as SQL documents it, and the theorem on the session store in Postgres over it.
use lean_lang_chain.Common.{
  String, Bool, true, false, Option, none, some, List, [], ◌∷◌, ◌≡◌, refl, sym, ◌∙◌, ◌==◌,
  if◌then◌else◌, eq_iff, arith, Bool-cases, inl, inr, subst, ◌⊎◌,
}
use mathlib.Core.List.{foldl}
use lean_lang_chain.Gateway.Map.{lookup, store, erase, lookup-store, lookup-erase}
use lean_lang_chain.Mcp.Store.{SessionRecord, get, Change, save, remove, apply}
use lean_lang_chain.Mcp.Postgres.{Row, names, SessionTable, postgres_get, postgres_apply}
use lean_lang_chain.Mcp.Postgres.Keyed.{stored_row}
use lean_lang_chain.Mcp.Postgres.Agreement.{postgres_get-get}

abbrev Rows : Type 0
Rows = List (String × Row)

-- a row under its own session
abbrev own_row : String → Option Row → Option Row
own_row session none = none
own_row session (some r) = if r.session_id == session then some r else none

abbrev row_at : String → Rows → Option Row
row_at session rows = own_row session (lookup session rows)

abbrev hit : String → Option Row → Option Row → Option Row
hit key none rest = rest
hit key (some r) rest = if names key r then some r else rest

pick : Rows → String → Rows → Option Row
pick [] key rows = none
pick ((k, q) ∷ m) key rows = hit key (row_at k rows) (pick m key rows)

own_row-session : (k : String) (o : Option Row) (r : Row) → own_row k o ≡ some r → k ≡ r.session_id
own_row-session k none r e = absurd cc
own_row-session k (some q) r e = elim (Bool-cases (q.session_id == k)) [
  | inl t ↦ (let w = rw t at e in sym ((eq_iff q.session_id k).0 t) ∙ cc)
  | inr f ↦ absurd (let w = rw f at e in cc)
]

hit-some :
    (key : String) (o rest : Option Row) (r : Row)
    → hit key o rest ≡ some r
    → ((o ≡ some r) × (names key r ≡ true)) ⊎ (rest ≡ some r)
hit-some key none rest r e = inr e
hit-some key (some q) rest r e = elim (Bool-cases (names key q)) [
  | inl t ↦
      (let z : some q ≡ some r = rw t at e in
        let y : q ≡ r = cc in inl (z, subst (λ x. names key x ≡ true) y t))
  | inr f ↦ inr (rw f at e)
]

pick-some :
    (m : Rows) (key : String) (rows : Rows) (r : Row)
    → pick m key rows ≡ some r
    → (row_at r.session_id rows ≡ some r) × (names key r ≡ true)
unfolding pick
pick-some [] key rows r e = absurd cc
pick-some ((k, q) ∷ m) key rows r e = elim (hit-some key (row_at k rows) (pick m key rows) r e) [
  | inl (w, t) ↦ (subst (λ x. row_at x rows ≡ some r) (own_row-session k (lookup k rows) r w) w, t)
  | inr w ↦ pick-some m key rows r w
]

pick-none :
    (m : Rows) (key session : String) (rows : Rows) (r q : Row)
    → pick m key rows ≡ none
    → row_at session rows ≡ some r
    → lookup session m ≡ some q
    → names key r ≡ false
unfolding pick lookup
pick-none [] key session rows r q e w l = absurd cc
pick-none ((k, p) ∷ m) key session rows r q e w l = elim (Bool-cases (k == session)) [
  | inl t ↦ (let z = (eq_iff k session).0 t in missed (rw (z, w) at e))
  | inr f ↦ pick-none m key session rows r q (later (row_at k rows) e) w (rw f at l)
]
  where
    missed : hit key (some r) (pick m key rows) ≡ none → names key r ≡ false
    missed e = elim (Bool-cases (names key r)) [
      | inl t ↦ absurd (let v = rw t at e in cc)
      | inr f ↦ f
    ]

    later : (o : Option Row) → hit key o (pick m key rows) ≡ none → pick m key rows ≡ none
    later none e = e
    later (some x) e = elim (Bool-cases (names key x)) [
      | inl t ↦ absurd (let v = rw t at e in cc)
      | inr f ↦ rw f at e
    ]

row_at-found :
    (session : String) (o : Option Row) (r : Row)
    → own_row session o ≡ some r
    → (q : Row) × (o ≡ some q)
row_at-found session none r e = absurd cc
row_at-found session (some q) r e = (q, refl)

own_row-if :
    (r : Row) (session : String) (o : Option Row)
    → own_row session (if r.session_id == session then some r else o)
      ≡ (if r.session_id == session then some r else own_row session o)
own_row-if r session o = ground arith

own_row-erased :
    (b : Bool) (session : String) (o : Option Row)
    → own_row session (if b then none else o) ≡ (if b then none else own_row session o)
own_row-erased true session o = refl
own_row-erased false session o = refl

table : SessionTable Rows
unfolding pick
table = record {
  row_at = row_at;
  select = λ key rows. pick rows key rows;
  upsert = λ r rows. store r.session_id r rows;
  erase = λ session rows. erase session rows;
  select-some = λ key rows r e. pick-some rows key rows r e;
  select-none = λ key session rows r e w.
      let (q, l) = row_at-found session (lookup session rows) r w in
      pick-none rows key session rows r q e w l;
  row_at-upsert = λ r session rows.
      rw (lookup-store r.session_id session r rows) (own_row-if r session (lookup session rows));
  row_at-erase = λ erased session rows.
      rw (lookup-erase erased session rows) (own_row-erased (erased == session) session _);
}

abbrev saved : SessionRecord
saved = record {
  session_id = "s1";
  thread_id = some "t1";
  fingerprint_id = "f1";
  workspace_path = "/w";
}

abbrev changes : List Change
changes = save saved ∷ remove "s2" ∷ []

-- "t1" names the session "s1"
abbrev owner : String → String
owner key = if key == "t1" then "s1" else key

abbrev thread : String → String
thread session = "t1"

postgres_get-get_example :
    stored_row (postgres_get table "t1" (foldl (postgres_apply table) [] changes))
    ≡ stored_row (get "t1" (foldl apply [] changes))
unfolding table lookup
postgres_get-get_example =
    postgres_get-get table owner thread changes "t1" [] refl (λ session. refl)
      ((record { own = refl; threaded = λ n. refl }, refl), ((refl, refl), tt))
