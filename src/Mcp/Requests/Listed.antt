-- ===== src/Mcp/Requests/Listed.antt =====
-- The list of tools against the tools that are served.
use lean_lang_chain.Common.{
  ◌||◌, arith, String, Bool, true, false, ◌&&◌, Option, none, some, List, [], ◌∷◌, ◌≡◌, refl, sym,
  ◌∙◌, ◌==◌, if◌then◌else◌, map, any, all, Bool-cases, inl, inr, eq_iff, subst, Result,
}
use lean_lang_chain.Text.{strip}
use lean_lang_chain.Json.{null, Json, Fields, str, obj, end, field, get, get_or, has_key}
use lean_lang_chain.Gateway.Map.{lookup}
use lean_lang_chain.Mcp.Catalog.{Operation, operations, get_mcp_tool_name}
use lean_lang_chain.Mcp.Tools.{
  Tool, Parameter, Server, parameters, build_mcp_tools, bind_arguments, all_known, bind_values,
  run_tool,
}
use lean_lang_chain.Mcp.Requests.{Surroundings, handle_mcp_request, stripped_name, replied}

-- the parameters that the list of tools gives for a name
unfoldable pub listed_in : List Operation → String → Option (List String)
listed_in [] name = none
listed_in (op ∷ ops) name =
    if get_mcp_tool_name op.name == name then some op.params else listed_in ops name

abbrev pub listed_params : String → Option (List String)
listed_params name = listed_in operations name

abbrev names_of : Option Tool → Option (List String)
names_of none = none
names_of (some t) = some (map (λ (p : Parameter). p.name) (parameters t))

-- one name is settled, and then the others
at_name : (P : String → Type 0) (k x : String) → P k → ((k == x) ≡ false → P x) → P x
at_name P k x p q = elim (Bool-cases (k == x)) [
  | inl t ↦ subst P ((eq_iff k x).0 t) p
  | inr f ↦ q f
]

-- each name is listed with the parameters of the tool that it calls
listed-served : (x : String) → listed_params x ≡ names_of (lookup x build_mcp_tools)
unfolding listed_in operations get_mcp_tool_name lookup build_mcp_tools parameters
listed-served x =
    let P : String → Type 0 = λ y. listed_params y ≡ names_of (lookup y build_mcp_tools) in
    at_name P "obligation/open_environment" x refl (λ a.
      at_name P "obligation/create_session" x refl (λ b.
        at_name P "obligation/apply_patch" x refl (λ c.
          at_name P "obligation/check_interactive" x refl (λ d.
            at_name P "obligation/get_goal" x refl (λ e. at_name P "obligation/hover" x refl (λ f.
              at_name P "obligation/definition" x refl (λ g.
                at_name P "obligation/batch_verify" x refl (λ h.
                  at_name P "obligation/get_review_payload" x refl (λ i.
                    at_name P "obligation/submit_review_decision" x refl (λ j.
                      at_name P "obligation/resume" x refl
                        (λ k. rw (a, b, c, d, e, f, g, h, i, j, k) refl)))))))))))

-- every argument has one of the names
unfoldable pub keys_in : List String → Fields → Bool
keys_in ps end = true
keys_in ps (field k v fs) = any (λ p. p == k) ps && keys_in ps fs

-- every name has an argument
abbrev pub has_all : List String → Fields → Bool
has_all ps args = all (λ p. has_key p args) ps

abbrev parameter_names : List Parameter → List String
parameter_names ps = map (λ (p : Parameter). p.name) ps

any-names :
    (ps : List Parameter) (k : String)
    → any (λ p. p == k) (parameter_names ps) ≡ any (λ (p : Parameter). p.name == k) ps
any-names [] k = refl
any-names (p ∷ ps) k = rw (any-names ps k) refl

keys_in-known :
    (ps : List Parameter) (args : Fields) → keys_in (parameter_names ps) args ≡ all_known ps args
unfolding keys_in all_known
keys_in-known ps end = refl
keys_in-known ps (field k v fs) = rw (any-names ps k, keys_in-known ps fs) refl

-- the values of the parameters, all of which are given
values-bound :
    (ps : List Parameter) (args : Fields)
    → has_all (parameter_names ps) args ≡ true
    → (b : Fields) × (bind_values ps args ≡ some b)
      × ((k : String)
          → get k b ≡ (if any (λ p. p == k) (parameter_names ps) then get k args else null))
unfolding bind_values get_or
values-bound [] args h = (end, refl, λ k. refl)
values-bound (p ∷ ps) args h = elim (Bool-cases (has_key p.name args)) [
  | inl t ↦
      (let (b, e, w) = values-bound ps args (rw t at h) in
        (
          field p.name (get p.name args) b,
          rw (t, e) refl,
          λ k.
              at_name
                (λ x. (if p.name == x then get p.name args else get x b) ≡ (
                  if p.name == x || any (λ q. q == x) (parameter_names ps)
                  then get x args
                  else null))
                p.name k (rw ((eq_iff p.name p.name).1 refl) refl) (λ n. rw n (w k)),
        ))
  | inr f ↦ absurd (let z = rw f at h in cc)
]

missing :
    (ps : List String) (args : Fields) (k : String)
    → keys_in ps args ≡ true
    → any (λ p. p == k) ps ≡ false
    → get k args ≡ null
unfolding keys_in get_or
missing ps end k h n = refl
missing ps (field j v fs) k h n = elim (Bool-cases (j == k)) [
  | inl t ↦ absurd (let z = (eq_iff j k).0 t in ground arith)
  | inr f ↦ rw f (missing ps fs k (ground arith) n)
]

arguments-bound :
    (ps : List Parameter) (args : Fields)
    → keys_in (parameter_names ps) args ≡ true
    → has_all (parameter_names ps) args ≡ true
    → (b : Fields) × (bind_arguments ps args ≡ some b) × ((k : String) → get k b ≡ get k args)
unfolding bind_arguments
arguments-bound ps args k h =
    let (b, e, w) = values-bound ps args h in
    (
      b,
      rw (sym (keys_in-known ps args), k) e,
      λ j. w j ∙ elim (Bool-cases (any (λ p. p == j) (parameter_names ps))) [
        | inl t ↦ rw t refl
        | inr f ↦ rw f (sym (missing (parameter_names ps) args j k f))
      ],
    )

module _ {W : Type 0} (v : Surroundings W) where
  -- the answer is that of a tool, run on the values that its parameters take
  pub record IsServed (name : String) (args : Fields) (s : Server W) (r : Result Json × Server W)
      : Type 0 where
    pub tool : Tool
    pub bound : Fields
    pub found : lookup (strip name) build_mcp_tools ≡ some tool
    pub binds : bind_arguments (parameters tool) args ≡ some bound
    pub taken : (k : String) → get k bound ≡ get k args
    pub answered : r ≡ replied v (run_tool v.perform v.shown tool bound s)

  tool-IsServed :
      (name : String) (params args : Fields) (s : Server W) (ps : List String) (o : Option Tool)
      → get "name" params ≡ str name
      → get "arguments" params ≡ obj args
      → lookup (strip name) build_mcp_tools ≡ o
      → names_of o ≡ some ps
      → keys_in ps args ≡ true
      → has_all ps args ≡ true
      → IsServed name args s (handle_mcp_request v "tools/call" params s)
  unfolding handle_mcp_request stripped_name get_or
  tool-IsServed name params args s ps none n a l e k h = absurd cc
  tool-IsServed name params args s ps (some t) n a l e k h =
      let q : parameter_names (parameters t) ≡ ps = cc in
      let (b, w, z) = arguments-bound (parameters t) args (rw q k) (rw q h) in
      record {
        tool = t;
        bound = b;
        found = l;
        binds = w;
        taken = z;
        answered = rw (n, a, l, w) refl;
      }

  -- A request to call a tool that is in the list of tools, with a value for each parameter that the list
  -- gives for it and for no other, runs that tool on the values of the request, and its reply is
  -- the answer of the tool.
  pub handle-IsServed :
      (name : String) (params args : Fields) (s : Server W) (ps : List String)
      → get "name" params ≡ str name
      → get "arguments" params ≡ obj args
      → listed_params (strip name) ≡ some ps
      → keys_in ps args ≡ true
      → has_all ps args ≡ true
      → IsServed name args s (handle_mcp_request v "tools/call" params s)
  handle-IsServed name params args s ps n a l k h =
      tool-IsServed name params args s ps (lookup (strip name) build_mcp_tools) n a refl
        (sym (listed-served (strip name)) ∙ l) k h
