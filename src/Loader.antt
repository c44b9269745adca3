-- ===== src/Loader.antt =====
-- packages/policy/lean_langchain_policy/pack_loader.py: packs that extend and import other packs.
-- The file system and the YAML parser are `files`: no file, what the parser raises, or a value;
-- `resolve` is `_resolve_path_for_name`, and `entry_key` is `_entry_key`.
pub mod Keys
use lean_lang_chain.Common.{
  ℕ, zero, suc, String, Bool, true, false, not, ◌&&◌, ◌||◌, Option, none, some, List, [], ◌∷◌, any,
  Result, ok, raise, value_error, type_error, file_not_found, ◌>>=◌, ◌==◌, if◌then◌else◌,
}
use lean_lang_chain.Json.{
  Json, Items, Fields, str, arr, obj, nil, cons, end, field, get, has_key, set, update, is_str,
  is_null, truthy, or_list,
}
use lean_lang_chain.Json.Equality.{py_eq}
use lean_lang_chain.Gateway.Map.{lookup, store}
use lean_lang_chain.Policy.Pack.{PolicyPack}

abbrev pub import_scalar_keys : List String
import_scalar_keys =
    "allow_trust_compiler" ∷ "block_sorry_ax" ∷ "block_unexpected_custom_axioms"
    ∷ "require_human_if_imports_change" ∷ "require_human_on_trust_delta"
    ∷ "allow_interactive_warnings" ∷ "single_owner_handoff" ∷ "reviewer_gated_execution"
    ∷ "lock_ownership_invariant" ∷ "evidence_complete_execution_token" ∷ "delegation_admissibility"
    ∷ "state_transition_preservation" ∷ "artifact_admissibility" ∷ "side_effect_authorization" ∷ []

-- an import that sets a flag otherwise than the layers before it
unfoldable pub import_scalar_conflict : Fields → Fields → Bool
import_scalar_conflict merged incoming =
    any (λ k. has_key k merged && has_key k incoming && not (py_eq (get k merged) (get k incoming)))
      import_scalar_keys

abbrev pub is_layer_key : String → Bool
is_layer_key k = k == "extends" || k == "import"

-- `{k: v for k, v in raw.items() if k not in ("extends", "import")}`
unfoldable pub body_of : Fields → Fields
body_of end = end
body_of (field k v fs) = if is_layer_key k then body_of fs else field k v (body_of fs)

-- the loop over the imports; an entry that is no text is passed over
unfoldable pub merge_imports : (String → Result Fields) → Bool → Items → Fields → Result Fields
unfolding import_scalar_conflict
merge_imports load strict nil merged = ok merged
merge_imports load strict (cons (str imp) imps) merged = do
  sub ← load imp
  if strict && import_scalar_conflict merged sub
      then raise value_error
      else merge_imports load strict imps (update merged sub)
merge_imports load strict (cons _ imps) merged = merge_imports load strict imps merged

-- what the pack extends, if it does
unfoldable pub merge_base : (String → Result Fields) → Json → Result Fields
unfolding truthy
merge_base load (str s) = if truthy (str s) then load s else ok end
merge_base load ext = if truthy ext then raise type_error else ok end

abbrev import_items : Json → Items
import_items (arr xs) = xs
import_items _ = nil

abbrev pub strict_of : Fields → Bool
strict_of raw = is_str "error_on_import_scalar_override" (get "composition_conflict_policy" raw)

abbrev pub imports_of : Fields → Items
unfolding or_list
imports_of raw = import_items (or_list (get "import" raw))

-- the layers of one pack: its base, its imports in their order, and its own keys
unfoldable pub merge_layers : (String → Result Fields) → Fields → Result Fields
unfolding merge_base merge_imports or_list body_of
merge_layers load raw = do
  sub ← merge_base load (get "extends" raw)
  merged ← merge_imports load (strict_of raw) (imports_of raw) (update end sub)
  ok (update merged (body_of raw))

module _ (files : String → Option (Result Json)) (resolve : String → String) where
  -- a value that is no dictionary is refused
  as_mapping : Json → Result Fields
  as_mapping (obj raw) = ok raw
  as_mapping _ = raise value_error

  unfoldable pub read_yaml_mapping : String → Result Fields
  unfolding as_mapping
  read_yaml_mapping path = elim (files path) [
    | none ↦ raise file_not_found
    | some parsed ↦ parsed >>= as_mapping
  ]

  -- `visiting` holds the paths of the packs that are being merged; the fuel is the number of levels
  -- that are still allowed
  unfoldable pub merge_pack_layers : ℕ → String → List String → Result Fields
  unfolding read_yaml_mapping merge_layers
  merge_pack_layers zero name visiting = raise value_error
  merge_pack_layers (suc levels) name visiting =
      if any (λ p. p == resolve name) visiting
      then raise value_error
      else read_yaml_mapping (resolve name)
        >>= merge_layers (λ sub. merge_pack_layers levels sub (resolve name ∷ visiting))

  -- without the cache; depths 0 to 12 are 13 levels
  unfoldable pub merged_dict_for_entry : String → Result Fields
  unfolding merge_pack_layers truthy
  merged_dict_for_entry entry = do
    raw ← read_yaml_mapping (resolve entry)
    if is_null (get "extends" raw) && not (truthy (get "import" raw))
        then ok raw
        else merge_pack_layers 13 entry []

  module _ (entry_key : String → String) where
    -- with the cache, which is looked up first and written after a success
    unfoldable pub cached_dict_for_entry :
        String → List (String × Fields) → Result Fields × List (String × Fields)
    unfolding merged_dict_for_entry lookup store
    cached_dict_for_entry entry cache = elim (lookup (entry_key entry) cache) [
      | some merged ↦ (ok merged, cache)
      | none ↦ elim (merged_dict_for_entry entry) [
        | ok merged ↦ (ok merged, store (entry_key entry) merged cache)
        | raise e ↦ (raise e, cache)
      ]
    ]

    -- `validate` is `PolicyPack.model_validate`; a resolved path resolves to itself
    unfoldable pub load_pack :
        (Fields → Result PolicyPack)
        → String
        → List (String × Fields)
        → Result PolicyPack × List (String × Fields)
    unfolding cached_dict_for_entry
    load_pack validate name cache = elim (files (resolve name)) [
      | none ↦ (raise file_not_found, cache)
      | some parsed ↦
          let (merged, cache') = cached_dict_for_entry (resolve name) cache in
          (merged >>= validate, cache')
    ]
