-- ===== src/Gateway/Files.antt =====
-- apps/lean-gateway/lean_langchain_gateway/api/path_safety.py, and the handlers of
-- api/routes_sessions.py. A resolved path is its list of names; `resolve root rel` is
-- `(root / rel).resolve()`, and a file system is a dictionary from paths to texts.
pub mod Inside
use Prim.Native.String.{◌++◌ as text_append}
use lean_lang_chain.Common.{
  ℕ, String, Bool, true, false, not, ◌&&◌, Option, none, some, List, [], ◌∷◌, ◌++◌, Result, ok,
  raise, value_error, key_error, ◌==◌, if◌then◌else◌,
}
use lean_lang_chain.Json.{Json, null}
use lean_lang_chain.Gateway.Reviews.{Response, answer, http_error, detail, internal_error}
use lean_lang_chain.Gateway.Sessions.{SessionLease, Sessions, get_lease}

abbrev pub FilePath : Type 0
FilePath = List String

-- `combined.relative_to(root)` does not raise
unfoldable pub is_under : FilePath → FilePath → Bool
is_under [] p = true
is_under (r ∷ rs) [] = false
is_under (r ∷ rs) (p ∷ ps) = r == p && is_under rs ps

abbrev pub Resolve : Type 0
Resolve = String → String → FilePath

-- `resolve_under_root`
unfoldable pub resolve_under_root : Resolve → String → String → Result FilePath
unfolding is_under
resolve_under_root resolve root rel =
    if is_under (resolve root "") (resolve root rel)
    then ok (resolve root rel)
    else raise value_error

unfoldable pub path_eq : FilePath → FilePath → Bool
path_eq [] [] = true
path_eq (p ∷ ps) (q ∷ qs) = p == q && path_eq ps qs
path_eq _ _ = false

-- the texts of the files
abbrev pub Files : Type 0
Files = FilePath → Option String

-- `path.write_text(content)`
unfoldable pub write_text : FilePath → String → Files → Files
unfolding path_eq
write_text path content files q = if path_eq path q then some content else files q

-- the loop over the files of a patch: what it changed, or the path that it refused
unfoldable pub write_files :
    Resolve
    → String
    → (String → String)
    → List (String × String)
    → List String
    → Files
    → Response (List String) × Files
unfolding resolve_under_root write_text
write_files resolve root quoted [] changed files = (answer changed, files)
write_files resolve root quoted ((rel, content) ∷ rest) changed files =
    elim (resolve_under_root resolve root rel) [
      | ok path ↦
          write_files resolve root quoted rest (changed ++ rel ∷ []) (write_text path content files)
      | raise e ↦ (
        http_error 400
            (detail "path_traversal" (text_append "Path escapes workspace: " (quoted rel))),
        files,
      )
    ]

abbrev sorted_answer :
    (List String → List String) → Response (List String) × Files → Response (List String) × Files
sorted_answer sort (answer changed, files) = (answer (sort changed), files)
sorted_answer sort (http_error status j, files) = (http_error status j, files)

abbrev pub no_session : {A : Type 0} → Response A
no_session = http_error 404 (detail "session_not_found" "Session not found")

-- the handler `apply_patch`, for the lease of the session
unfoldable pub patch_lease :
    Resolve
    → (List String → List String)
    → (String → String)
    → List (String × String)
    → Files
    → Result SessionLease
    → Response (List String) × Files
unfolding write_files
patch_lease resolve sort quoted patch files (raise key_error) = (no_session, files)
patch_lease resolve sort quoted patch files (raise _) = (internal_error, files)
patch_lease resolve sort quoted patch files (ok lease) =
    sorted_answer sort (write_files resolve lease.workspace_path quoted patch [] files)

-- the handler `apply_patch`; `sort` is `sorted`, and `quoted` is `repr`
unfoldable pub apply_patch :
    Resolve
    → (List String → List String)
    → (String → String)
    → Sessions
    → String
    → List (String × String)
    → Files
    → Response (List String) × Files
unfolding patch_lease get_lease
apply_patch resolve sort quoted s session patch files =
    patch_lease resolve sort quoted patch files (get_lease session s)
