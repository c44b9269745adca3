-- ===== src/Runtime/Review.antt =====
-- runtime/nodes/handlers.py: `policy_review`, `interrupt_for_approval` and `resume_with_approval`,
-- and `_load_pack_for_review` of runtime/graph.py.
use lean_lang_chain.Common.{
  String, Bool, true, false, not, ◌&&◌, ◌||◌, Option, none, some, List, [], ◌∷◌, Result, ok, raise,
  if◌then◌else◌, ◌>>=◌,
}
use lean_lang_chain.Json.{
  Json, Fields, null, bool, str, arr, obj, nil, cons, end, field, get, truthy, or_dict, or_list,
  dict_get, dict_get_or, is_str, is_null, set,
}
use lean_lang_chain.Policy.Decision.{reason_missing_approval_token}
use lean_lang_chain.Policy.Pack.{PolicyPack, default_pack}
use lean_lang_chain.Policy.Events.{texts}
use lean_lang_chain.Policy.Patch.{Patch, PatchSummary, summarize_patch}
use lean_lang_chain.Policy.Engine.{evaluate, iterate}
use lean_lang_chain.Runtime.State.{ObligationRuntimeState, Status}
use lean_lang_chain.Runtime.Exec.{Exec, Client}
use lean_lang_chain.Runtime.Dump.{dump_decision, is_refused}
use lean_lang_chain.Runtime.Handlers.{pack_name}

-- a pack that cannot be loaded is replaced by the strict default
unfoldable pub load_pack_for_review :
    (String → Result PolicyPack) → Option String → ObligationRuntimeState → PolicyPack
unfolding pack_name
load_pack_for_review load_pack env s =
    elim (load_pack (pack_name s.policy_pack_name env "strict_patch_gate_v1")) [
      | ok pack ↦ pack
      | raise e ↦ default_pack "1" "strict" "Strict"
    ]

-- an entry that is no text equals no path
texts_among : List Json → List String
texts_among [] = []
texts_among (str s ∷ js) = s ∷ texts_among js
texts_among (_ ∷ js) = texts_among js

-- `list(policy.get("protected_paths") or [])` of the obligation's policy
unfoldable pub protected_paths : Json → Result (List String)
unfolding or_dict or_list dict_get iterate texts_among
protected_paths obligation = do
  policy ← dict_get (or_dict obligation) "policy"
  paths ← dict_get (or_dict policy) "protected_paths"
  js ← iterate (or_list paths)
  ok (texts_among js)

unfoldable pub patch_meta : PatchSummary → Fields
unfolding texts
patch_meta summary = field "protected_paths_touched" (arr (texts summary.protected)) (
    field "imports_changed" (bool summary.imports)
      (field "changed_files" (arr (texts summary.changed)) end))

-- `approval in ("approved", "rejected")`
abbrev pub is_decided : Json → Bool
is_decided j = is_str "approved" j || is_str "rejected" j

-- the dictionary of a missing approval token
abbrev pub missing_token : Json
missing_token = obj (
    field "decision" (str "blocked") (
      field "trust_level" (str "blocked")
        (field "reasons" (arr (cons (str reason_missing_approval_token) nil)) end)))

unfoldable pub engine_review :
    (String → String) → PolicyPack → ObligationRuntimeState → Result ObligationRuntimeState
unfolding protected_paths patch_meta
engine_review sha256 pack s = do
  protected ← protected_paths s.obligation
  let summary = summarize_patch sha256 [] s.current_patch protected
  decision ← evaluate s.interactive_result s.batch_result (patch_meta summary) pack
  ok (record s { policy_decision = dump_decision decision; status = Status.auditing })

unfoldable pub review_with :
    (String → String) → PolicyPack → ObligationRuntimeState → Result ObligationRuntimeState
unfolding engine_review
review_with sha256 pack s =
    if pack.reviewer_gated_execution && not (is_decided s.approval_decision)
    then ok (record s { policy_decision = missing_token; status = Status.auditing })
    else engine_review sha256 pack s

unfoldable pub policy_review :
    (String → String)
    → (String → Result PolicyPack)
    → Option String
    → ObligationRuntimeState
    → Result ObligationRuntimeState
unfolding review_with load_pack_for_review or_dict dict_get
policy_review sha256 load_pack env s = do
  decision ← dict_get (or_dict s.policy_decision) "decision"
  if is_refused decision
      then ok (record s { status = Status.auditing })
      else review_with sha256 (load_pack_for_review load_pack env s) s

unfoldable pub resume_with_approval : ObligationRuntimeState → ObligationRuntimeState
resume_with_approval s = record s {
  approval_required = false;
  status = if is_str "approved" s.approval_decision then Status.accepted else Status.rejected;
}

patch_json : Patch → Fields
patch_json [] = end
patch_json ((p, c) ∷ patch) = field p (str c) (patch_json patch)

-- `pd.get("resolved_rules") is not None or pd.get("policy_pack_name")`
has_audit : Json → Bool
has_audit (obj pd) = not (is_null (get "resolved_rules" pd)) || truthy (get "policy_pack_name" pd)
has_audit _ = false

abbrev or_text : Json → Json
or_text j = if truthy j then j else str ""

audit_of : Json → Json
audit_of (obj pd) = obj (
    field "policy_pack_name" (or_text (get "policy_pack_name" pd)) (
      field "policy_pack_version" (or_text (get "policy_pack_version" pd))
        (field "resolved_rules" (or_list (get "resolved_rules" pd)) end)))
audit_of _ = null

-- the review payload; the parts that come from dictionaries have been looked up
payload_of : ObligationRuntimeState → PatchSummary → Json → Json → Json → Fields
unfolding patch_json texts or_dict
payload_of s summary diagnostics axiom_audit reasons = field "thread_id" (str s.thread_id) (
    field "obligation_id" (str s.obligation_id) (
      field "obligation_summary"
        (obj (
          field "obligation" (or_dict s.obligation) (
            field "target_files" (arr (texts s.target_files))
              (field "target_declarations" (arr (texts s.target_declarations)) end))))
        (field "environment_summary" (or_dict s.environment_fingerprint) (
          field "patch_metadata"
            (obj (
              field "current_patch" (obj (patch_json s.current_patch)) (
                field "protected_paths_touched" (arr (texts summary.protected)) (
                  field "imports_changed" (bool summary.imports) (
                    field "changed_files" (arr (texts summary.changed))
                      (field "diff_hash" (str summary.diff_hash) end))))))
            (field "diff_summary" null (
              field "diagnostics_summary" diagnostics (
                field "axiom_audit_summary" axiom_audit (
                  field "batch_summary" (or_dict s.batch_result) (
                    field "policy_summary" (or_dict s.policy_decision) (
                      field "trust_delta" s.trust_level (
                        field "reasons" reasons
                          (field "status" (str "awaiting_review") end))))))))))))

unfoldable pub review_payload : (String → String) → ObligationRuntimeState → Result Fields
unfolding protected_paths or_dict payload_of has_audit audit_of dict_get_or
review_payload sha256 s = do
  protected ← protected_paths s.obligation
  let summary = summarize_patch sha256 [] s.current_patch protected
  diagnostics ← dict_get_or (or_dict s.interactive_result) "diagnostics" (arr nil)
  axiom_audit ← dict_get_or (or_dict s.batch_result) "axiom_audit" (obj end)
  reasons ← dict_get_or (or_dict s.policy_decision) "reasons" (arr nil)
  let payload = payload_of s summary diagnostics axiom_audit reasons
  ok (
      if has_audit (or_dict s.policy_decision)
      then set "policy_audit" (audit_of (or_dict s.policy_decision)) payload
      else payload)

module _ {G : Type 0} (client : Client G) where
  -- the part under `try`: what fails in it is dropped
  unfoldable pub send_review : Option Json → G → G
  send_review none g = g
  send_review (some payload) g = (client.create_pending_review payload g).1

  -- `validate` is `ReviewPayload.model_validate` followed by `model_dump`
  unfoldable pub interrupt_for_approval :
      (Json → Option Json)
      → (String → String)
      → ObligationRuntimeState
      → Exec G ObligationRuntimeState
  unfolding review_payload send_review
  interrupt_for_approval validate sha256 s g = elim (review_payload sha256 s) [
    | raise e ↦ (raise e, g)
    | ok payload ↦ (
      ok (record s { approval_required = true; status = Status.awaiting_approval }),
      send_review (validate (obj payload)) g,
    )
  ]
