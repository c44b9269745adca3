-- ===== src/Mcp/Postgres/Agreement.antt =====
-- The session store in Postgres against the one in memory, where each key names one session.
use mathlib.Core.List.{foldl}
use lean_lang_chain.Common.{
  String, false, ◌||◌, Option, none, some, List, [], ◌∷◌, ◌≡◌, refl, sym, ap, ◌∙◌, ◌==◌,
  if◌then◌else◌, eq_iff, Bool-cases, inl, inr, subst,
}
use lean_lang_chain.Gateway.Map.{lookup}
use lean_lang_chain.Mcp.Store.{
  SessionRecord, Data, get, set, delete, Change, save, remove, apply, thread_of,
}
use lean_lang_chain.Mcp.Postgres.{
  Row, text_of, row_of, names, SessionTable, read_row, postgres_get, postgres_set, postgres_delete,
  postgres_apply,
}
use lean_lang_chain.Mcp.Postgres.Keyed.{
  stored_row, only, thread_text, lookup-set, lookup-delete, stored_row-if, thread_text-stored,
  same_text, some-injective, is_key, IsKeyed, AllKeyed, Fits, names-owner, only-same, saved-Fits,
  is_key-owner, is_key-only, only-own,
}

module _ {S : Type 0} (table : SessionTable S) (owner thread : String → String) where
  record Agree (d : Data) (s : S) : Type 0 where
    fits :
        (session : String) (r : Row) → table.row_at session s ≡ some r → Fits owner thread session r
    same :
        (key : String)
        → (key == "") ≡ false
        → stored_row (lookup key d) ≡ only key (table.row_at (owner key) s)

  -- the row that a key finds after an insert
  only-upsert :
      (r : SessionRecord) (key : String) (s : S)
      → (key == "") ≡ false
      → IsKeyed owner thread (save r)
      → ((session : String) (q : Row)
          → table.row_at session s ≡ some q
          → Fits owner thread session q)
      → only key (table.row_at (owner key) (table.upsert (row_of r) s))
        ≡ (if names key (row_of r) then some (row_of r) else only key (table.row_at (owner key) s))
  only-upsert r key s n k fits =
      let f = saved-Fits owner thread r k in
      elim (Bool-cases (names key (row_of r))) [
        | inl h ↦
            rw
              (
                table.row_at-upsert (row_of r) (owner key) s,
                names-owner owner thread key r.session_id (row_of r) n f h,
                same_text r.session_id,
                h,
              )
              refl
        | inr h ↦ elim (Bool-cases (r.session_id == owner key)) [
          | inl e ↦
              rw (table.row_at-upsert (row_of r) (owner key) s, e, h)
                (sym (
                  only-same owner thread key r.session_id (row_of r) (table.row_at (owner key) s) f
                    (λ q w.
                      subst (λ x. Fits owner thread x q)
                        (sym ((eq_iff r.session_id (owner key)).0 e)) (fits (owner key) q w))
                    h))
          | inr e ↦ rw (table.row_at-upsert (row_of r) (owner key) s, e, h) refl
        ]
      ]

  upsert-Fits :
      (r : SessionRecord) (d : Data) (s : S)
      → IsKeyed owner thread (save r)
      → Agree d s
      → (session : String) (q : Row) → table.row_at session (table.upsert (row_of r) s) ≡ some q
      → Fits owner thread session q
  upsert-Fits r d s k h session q e = elim (Bool-cases (r.session_id == session)) [
    | inl t ↦
        (let w = rw (table.row_at-upsert (row_of r) session s, t) at e in
          let f =
            subst (λ x. Fits owner thread x (row_of r)) ((eq_iff r.session_id session).0 t)
              (saved-Fits owner thread r k) in
          subst (λ x. Fits owner thread session x) (some-injective w) f)
    | inr t ↦ h.fits session q (rw (table.row_at-upsert (row_of r) session s, t) at e)
  ]

  save-Agree :
      (r : SessionRecord) (d : Data) (s : S)
      → IsKeyed owner thread (save r)
      → Agree d s
      → Agree (set r d) (postgres_set table r s)
  unfolding set postgres_set
  save-Agree r d s k h = record {
    fits = upsert-Fits r d s k h;
    same = λ key n.
        ap stored_row (lookup-set r r.thread_id key d n)
        ∙ stored_row-if (names key (row_of r)) _ _
        ∙ rw (h.same key n) (sym (only-upsert r key s n k h.fits));
  }

  only-erase :
      (session key : String) (s : S)
      → (key == "") ≡ false
      → owner session ≡ session
      → ((r : Row) → table.row_at session s ≡ some r → Fits owner thread session r)
      → (if is_key session (table.row_at session s) key
          then none
          else only key (table.row_at (owner key) s))
        ≡ only key (table.row_at (owner key) (table.erase session s))
  only-erase session key s n own f =
      elim (Bool-cases (is_key session (table.row_at session s) key)) [
        | inl h ↦
            rw
              (
                h,
                table.row_at-erase session (owner key) s,
                is_key-owner owner thread session key (table.row_at session s) n own f h,
                same_text session,
              )
              refl
        | inr h ↦ elim (Bool-cases (session == owner key)) [
          | inl e ↦
              rw
                (
                  h,
                  table.row_at-erase session (owner key) s,
                  e,
                  sym ((eq_iff session (owner key)).0 e),
                )
                (is_key-only owner thread session key (table.row_at session s) f h)
          | inr e ↦ rw (h, table.row_at-erase session (owner key) s, e) refl
        ]
      ]

  erase-Fits :
      (erased : String) (d : Data) (s : S)
      → Agree d s
      → (session : String) (q : Row) → table.row_at session (table.erase erased s) ≡ some q
      → Fits owner thread session q
  erase-Fits erased d s h session q e = elim (Bool-cases (erased == session)) [
    | inl t ↦ absurd (let w = rw (table.row_at-erase erased session s, t) at e in cc)
    | inr t ↦ h.fits session q (rw (table.row_at-erase erased session s, t) at e)
  ]

  -- the thread under which the store in memory erases a session
  erased-thread :
      (session : String) (d : Data) (s : S)
      → IsKeyed owner thread (remove session)
      → Agree d s
      → text_of (thread_of (lookup session d)) ≡ thread_text (table.row_at session s)
  erased-thread session d s (n, own) h =
      let e : stored_row (lookup session d) ≡ table.row_at session s =
        h.same session n
        ∙ rw own (only-own owner thread session (table.row_at session s) (h.fits session)) in
      thread_text-stored (lookup session d) ∙ ap thread_text e

  remove-Agree :
      (session : String) (d : Data) (s : S)
      → IsKeyed owner thread (remove session)
      → Agree d s
      → Agree (delete session d) (postgres_delete table session s)
  unfolding delete postgres_delete
  remove-Agree session d s (m, own) h = record {
    fits = erase-Fits session d s h;
    same = λ key n.
        ap stored_row (lookup-delete (thread_of (lookup session d)) session key d n)
        ∙ stored_row-if (session == key || text_of (thread_of (lookup session d)) == key) none
            (lookup key d)
        ∙ rw (erased-thread session d s (m, own) h, h.same key n)
            (only-erase session key s n own (h.fits session));
  }

  run-Agree :
      (changes : List Change) (d : Data) (s : S)
      → AllKeyed owner thread changes
      → Agree d s
      → Agree (foldl apply d changes) (foldl (postgres_apply table) s changes)
  unfolding apply postgres_apply
  run-Agree [] d s k h = h
  run-Agree (save r ∷ cs) d s (k, ks) h =
      run-Agree cs (set r d) (postgres_set table r s) ks (save-Agree r d s k h)
  run-Agree (remove session ∷ cs) d s (k, ks) h =
      run-Agree cs (delete session d) (postgres_delete table session s) ks
        (remove-Agree session d s k h)

  -- a row that the key names is that of the owner of the key
  selected-only :
      (key : String) (s : S) (o : Option Row)
      → (key == "") ≡ false
      → ((session : String) (r : Row)
          → table.row_at session s ≡ some r
          → Fits owner thread session r)
      → table.select key s ≡ o
      → o ≡ only key (table.row_at (owner key) s)
  selected-only key s (some r) n f e =
      let (at, named) = table.select-some key s r e in
      rw (names-owner owner thread key r.session_id r n (f r.session_id r at) named, at, named) refl
  selected-only key s none n f e = sym (unnamed (table.row_at (owner key) s) refl)
    where
      unnamed : (q : Option Row) → table.row_at (owner key) s ≡ q → only key q ≡ none
      unnamed none w = refl
      unnamed (some r) w = rw (table.select-none key (owner key) s r e w) refl

  stored_row-read : (o : Option Row) → stored_row (read_row o) ≡ o
  stored_row-read none = refl
  stored_row-read (some r) = refl

  -- After any changes in which each key names one session and a session keeps its thread, the store in
  -- Postgres answers every key that is not empty as the store in memory does, up to a thread that is
  -- absent, which Postgres gives as an empty text, where the table started empty.
  pub postgres_get-get :
      (changes : List Change) (key : String) (s : S)
      → (key == "") ≡ false
      → ((session : String) → table.row_at session s ≡ none)
      → AllKeyed owner thread changes
      → stored_row (postgres_get table key (foldl (postgres_apply table) s changes))
        ≡ stored_row (get key (foldl apply [] changes))
  unfolding postgres_get get lookup
  postgres_get-get changes key s n empty k =
      let start : Agree [] s = record {
        fits = λ session r e. absurd (let w = sym (empty session) ∙ e in cc);
        same = λ key n. rw (empty (owner key)) refl;
      } in
      let h = run-Agree changes [] s k start in
      let last = foldl (postgres_apply table) s changes in
      stored_row-read (table.select key last)
      ∙ selected-only key last (table.select key last) n h.fits refl
      ∙ sym (h.same key n)
