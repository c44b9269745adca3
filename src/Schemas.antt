-- ===== src/Schemas.antt =====
-- packages/schemas/lean_langchain_schemas/review.py: the validators that run before the fields of a
-- review payload are checked. `text_of` is Python's `str`.
use lean_lang_chain.Common.{String, Bool, true, false, List, [], ◌∷◌, if◌then◌else◌}
use lean_lang_chain.Json.{
  Json, Items, Fields, null, str, arr, obj, nil, cons, end, field, get, has_key, truthy, is_null,
}

-- `ReviewObligationSummary._none_to_list`
unfoldable pub none_to_list : Json → Items
none_to_list (arr xs) = xs
none_to_list _ = nil

-- `ReviewPatchMetadata._protected_paths_touched`
unfoldable pub protected_paths_touched : Json → Bool
unfolding truthy
protected_paths_touched (arr nil) = false
protected_paths_touched (arr (cons x xs)) = true
protected_paths_touched v = truthy v

coerced_fields : (Json → String) → Fields → Fields
coerced_fields text_of end = end
coerced_fields text_of (field k v fs) =
    field k (str (if is_null v then "" else text_of v)) (coerced_fields text_of fs)

-- `ReviewPatchMetadata._coerce_patch`
unfoldable pub coerce_patch : (Json → String) → Json → Fields
unfolding coerced_fields
coerce_patch text_of (obj fs) = coerced_fields text_of fs
coerce_patch text_of _ = end

unfoldable pub dicts_of : Items → Items
dicts_of nil = nil
dicts_of (cons (obj fs) xs) = cons (obj fs) (dicts_of xs)
dicts_of (cons x xs) = dicts_of xs

abbrev inner_list : Json → Items
inner_list (arr xs) = dicts_of xs
inner_list _ = nil

-- `ReviewPayload._coerce_diagnostics`
unfoldable pub coerce_diagnostics : Json → Items
unfolding dicts_of
coerce_diagnostics (arr xs) = dicts_of xs
coerce_diagnostics (obj fs) = inner_list (get "diagnostics" fs)
coerce_diagnostics _ = nil

-- `_coerce_axiom` and `_coerce_policy`: None and an empty dictionary stand for the default
unfoldable pub coerce_default : Json → Json → Json
coerce_default default null = default
coerce_default default (obj end) = default
coerce_default default v = v

kept_fields : List String → Fields → Fields
unfolding has_key
kept_fields [] fs = end
kept_fields (k ∷ ks) fs =
    let rest = kept_fields ks fs in if has_key k fs then field k (get k fs) rest else rest

abbrev kept_keys : List String
kept_keys = "ok" ∷ "trust_level" ∷ "reasons" ∷ "build" ∷ "axiom_audit" ∷ "fresh_checker" ∷ []

abbrev or_summary : Json → Fields → Json
or_summary default end = default
or_summary default (field k v fs) = obj (field k v fs)

-- `ReviewPayload._coerce_batch`
unfoldable pub coerce_batch : Json → Json → Json
unfolding kept_fields
coerce_batch default null = default
coerce_batch default (obj fs) = or_summary default (kept_fields kept_keys fs)
coerce_batch default v = v
