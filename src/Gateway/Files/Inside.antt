-- ===== src/Gateway/Files/Inside.antt =====
-- The files that a patch of a session may change (api/routes_sessions.py with api/path_safety.py).
use lean_lang_chain.Common.{
  String, ◌≡◌, refl, true, false, List, [], ◌∷◌, ◌++◌, Result, ok, raise, eq_iff, arith, Bool-cases,
  inl, inr, ap, ◌∙◌, key_error,
}
use lean_lang_chain.Gateway.Reviews.{Response, answer, http_error}
use lean_lang_chain.Gateway.Sessions.{SessionLease, Sessions, get_lease}
use lean_lang_chain.Gateway.Files.{
  FilePath, is_under, Resolve, resolve_under_root, path_eq, Files, write_text, write_files,
  sorted_answer, patch_lease, apply_patch,
}

path_eq-eq : (p q : FilePath) → path_eq p q ≡ true → p ≡ q
unfolding path_eq
path_eq-eq [] [] h = refl
path_eq-eq [] (q ∷ qs) h = cc
path_eq-eq (p ∷ ps) [] h = cc
path_eq-eq (p ∷ ps) (q ∷ qs) h = ground (arith, eq_iff p q, path_eq-eq ps qs)

-- A write leaves the other files.
write_text-other :
    (path q : FilePath) (content : String) (files : Files) (root : FilePath)
    → is_under root path ≡ true
    → is_under root q ≡ false
    → write_text path content files q ≡ files q
unfolding write_text
write_text-other path q content files root h k = elim (Bool-cases (path_eq path q)) [
  | inl same ↦ let e : path ≡ q = path_eq-eq path q same in absurd (cc (ap (is_under root) e))
  | inr other ↦ rw other refl
]

sorted_answer-files :
    (sort : List String → List String) (r : Response (List String) × Files)
    → (sorted_answer sort r).1 ≡ r.1
sorted_answer-files sort (answer changed, files) = refl
sorted_answer-files sort (http_error status j, files) = refl

module _ (resolve : Resolve) (quoted : String → String) (root : String) (q : FilePath)
    (outside : is_under (resolve root "") q ≡ false) where
  write_files-outside :
      (patch : List (String × String)) (changed : List String) (files : Files)
      → (write_files resolve root quoted patch changed files).1 q ≡ files q
  unfolding write_files resolve_under_root
  write_files-outside [] changed files = refl
  write_files-outside ((rel, content) ∷ rest) changed files =
      elim (Bool-cases (is_under (resolve root "") (resolve root rel))) [
        | inl inside ↦
            rw (inside, write_files)
              (write_files-outside rest (changed ++ rel ∷ [])
                  (write_text (resolve root rel) content files)
                ∙ write_text-other (resolve root rel) q content files (resolve root "") inside
                    outside)
        | inr escapes ↦ rw (escapes, write_files) refl
      ]

module _ (resolve : Resolve) (sort : List String → List String) (quoted : String → String)
    (session : String) (q : FilePath) where
  -- the file lies outside of the workspace of the session, where there is such a session
  abbrev pub Outside : Result SessionLease → Type 0
  Outside (raise e) = Unit {0}
  Outside (ok lease) = is_under (resolve lease.workspace_path "") q ≡ false

  patch_lease-Outside :
      (patch : List (String × String)) (files : Files) (lease : Result SessionLease)
      → Outside lease
      → (patch_lease resolve sort quoted patch files lease).1 q ≡ files q
  unfolding patch_lease
  patch_lease-Outside patch files (raise key_error) h = refl
  patch_lease-Outside patch files (raise _) h = refl
  patch_lease-Outside patch files (ok lease) h =
      ap (λ fs. fs q)
        (sorted_answer-files sort (write_files resolve lease.workspace_path quoted patch [] files))
      ∙ write_files-outside resolve quoted lease.workspace_path q h patch [] files

  -- A patch, whether it is applied, refused for a path that escapes, or sent for a session that is not
  -- there, changes no file outside of the session's workspace, wherever its paths resolve to.
  pub apply_patch-Outside :
      (s : Sessions) (patch : List (String × String)) (files : Files)
      → Outside (get_lease session s)
      → (apply_patch resolve sort quoted s session patch files).1 q ≡ files q
  unfolding apply_patch
  apply_patch-Outside s patch files h = patch_lease-Outside patch files (get_lease session s) h
