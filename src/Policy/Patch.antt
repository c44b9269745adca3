-- ===== src/Policy/Patch.antt =====
-- packages/policy/lean_langchain_policy/patch_metadata.py: `summarize_patch`. A patch is a
-- dictionary from paths to contents, in its insertion order.
use Prim.Native.Nat.{Ordering}
use Prim.Native.String.{compare, ◌++◌ as text_append}
use text.Mathlib.Text.{find?}
use lean_lang_chain.Common.{
  String, Bool, false, not, ◌&&◌, ◌||◌, List, [], ◌∷◌, any, is_some, ◌==◌, if◌then◌else◌,
}

abbrev pub Patch : Type 0
Patch = List (String × String)

-- `before.get(path, "")`
unfoldable pub content : String → Patch → String
content p [] = ""
content p ((q, c) ∷ patch) = if q == p then c else content p patch

unfoldable pub has_path : String → Patch → Bool
has_path p [] = false
has_path p ((q, c) ∷ patch) = q == p || has_path p patch

-- insertion into a sorted list with no duplicates
unfoldable pub insert : String → List String → List String
insert p [] = p ∷ []
insert p (q ∷ qs) = elim (compare p q) [
  | Ordering.lt ↦ p ∷ q ∷ qs
  | Ordering.eq ↦ q ∷ qs
  | Ordering.gt ↦ q ∷ insert p qs
]

unfoldable pub sorted_paths : Patch → List String → List String
unfolding insert
sorted_paths [] out = out
sorted_paths ((p, c) ∷ patch) out = insert p (sorted_paths patch out)

-- `sorted(set(before) | set(after))`
unfoldable pub changed_files : Patch → Patch → List String
unfolding sorted_paths
changed_files before after = sorted_paths before (sorted_paths after [])

-- `"import " in text`
abbrev pub mentions_import : String → Bool
mentions_import text = is_some (find? text "import ")

unfoldable pub path_changes_imports : Patch → Patch → String → Bool
unfolding content
path_changes_imports before after p =
    not (content p before == content p after)
    && (mentions_import (content p before) || mentions_import (content p after))

unfoldable pub imports_changed : Patch → Patch → Bool
unfolding changed_files path_changes_imports
imports_changed before after = any (path_changes_imports before after) (changed_files before after)

-- `p in protected_paths`
abbrev pub is_protected : List String → String → Bool
is_protected protected p = any (λ q. q == p) protected

unfoldable pub keep : (String → Bool) → List String → List String
keep test [] = []
keep test (p ∷ ps) = if test p then p ∷ keep test ps else keep test ps

unfoldable pub protected_touched : Patch → Patch → List String → List String
unfolding changed_files keep
protected_touched before after protected =
    keep (is_protected protected) (changed_files before after)

-- `"".join(after.get(p, "") for p in changed_files)`
unfoldable pub joined : Patch → List String → String
unfolding content
joined after [] = ""
joined after (p ∷ ps) = text_append (content p after) (joined after ps)

pub record PatchSummary : Type 0 where
  pub changed : List String
  pub imports : Bool
  pub protected : List String
  pub diff_hash : String

-- `sha256` is the hash of hashlib, as a hexadecimal text
unfoldable pub summarize_patch : (String → String) → Patch → Patch → List String → PatchSummary
unfolding changed_files imports_changed protected_touched joined
summarize_patch sha256 before after protected = record {
  changed = changed_files before after;
  imports = imports_changed before after;
  protected = protected_touched before after protected;
  diff_hash = sha256 (joined after (changed_files before after));
}
