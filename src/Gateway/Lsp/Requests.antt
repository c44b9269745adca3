-- ===== src/Gateway/Lsp/Requests.antt =====
-- apps/lean-gateway/lean_langchain_gateway/server/lsp_client.py: what the requests make of the
-- server's messages. A message is a dictionary; `none` is a read that gave none. The messages are those
-- read before the deadline. `show` is Python's `str` on a JSON value.
use lean_lang_chain.Common.{
  ℕ, suc, zero, String, Bool, true, false, not, ◌&&◌, Option, none, some, List, [], ◌∷◌, Result, ok,
  raise, type_error, ◌>>=◌, if◌then◌else◌, map, any,
}
use lean_lang_chain.Json.{
  pos, negsuc, Json, Fields, null, bool, int, str, arr, obj, nil, end, field, get, get_or, has_key,
  is_str, truthy, or_dict, dict_get, dict_get_or, to_list,
}
use lean_lang_chain.Json.Equality.{py_eq}
use lean_lang_chain.Policy.Engine.{iterate}

-- the results of a check: diagnostics, goals, and whether it passed
pub record Checked : Type 0 where
  pub diagnostics : List Fields
  pub goals : List Fields
  pub passed : Bool

-- `x + 1`
unfoldable pub plus_one : Json → Result Json
plus_one (int (pos n)) = ok (int (pos (suc n)))
plus_one (int (negsuc zero)) = ok (int (pos 0))
plus_one (int (negsuc (suc n))) = ok (int (negsuc n))
plus_one (bool true) = ok (int (pos 2))
plus_one (bool false) = ok (int (pos 1))
plus_one _ = raise type_error

-- the end of the range, where it is given
unfoldable pub end_of : Json → String → (Json → Result Json) → Result Json
unfolding dict_get_or truthy
end_of e key next = if truthy e then dict_get_or e key (int (pos 0)) >>= next else ok null

-- one diagnostic of a `publishDiagnostics` message
unfoldable pub diagnostic : String → Json → Result Fields
unfolding end_of plus_one dict_get_or dict_get
diagnostic file d = do
  r ← dict_get_or d "range" (obj end)
  start ← dict_get_or r "start" (obj end)
  last ← dict_get r "end"
  end_line ← end_of last "line" plus_one
  end_col ← end_of last "character" (λ c. ok c)
  severity ← dict_get_or d "severity" (int (pos 1))
  start_line ← dict_get_or start "line" (int (pos 0))
  line ← plus_one start_line
  column ← dict_get_or start "character" (int (pos 0))
  message ← dict_get_or d "message" (str "")
  ok (
      field "severity" severity (
        field "file" (str file) (
          field "line" line (
            field "column" column (
              field "end_line" end_line (
                field "end_column" end_col
                  (field "message" message (field "source" (str "lean") end))))))))

unfoldable pub diagnostics_of : String → List Json → Result (List Fields)
unfolding diagnostic
diagnostics_of file [] = ok []
diagnostics_of file (d ∷ ds) = do
  first ← diagnostic file d
  rest ← diagnostics_of file ds
  ok (first ∷ rest)

unfoldable pub published : String → Json → Result (List Fields)
unfolding dict_get_or iterate diagnostics_of
published file params = do
  ds ← dict_get_or params "diagnostics" (arr nil)
  listed ← iterate ds
  diagnostics_of file listed

-- the loop of `run_check`
unfoldable pub await_diagnostics : String → List (Option Fields) → Result (List Fields)
unfolding published or_dict has_key get_or
await_diagnostics file [] = ok []
await_diagnostics file (none ∷ rest) = ok []
await_diagnostics file (some message ∷ rest) =
    let later = await_diagnostics file rest in
    if is_str "textDocument/publishDiagnostics" (get "method" message)
    then published file (or_dict (get "params" message))
    else if has_key "id" message && has_key "result" message
    then ok []
    else later

-- `d.get("severity") == 1`
unfoldable pub is_error : Fields → Bool
unfolding py_eq get_or
is_error d = py_eq (get "severity" d) (int (pos 1))

abbrev pub not_checked : Checked
not_checked = record { diagnostics = []; goals = []; passed = false }

unfoldable pub checked : List Fields → Checked
unfolding is_error
checked ds = record { diagnostics = ds; goals = []; passed = not (any is_error ds) }

-- `run_check`: the process, whether the file is there, and the messages
unfoldable pub run_check : Option ℕ → Bool → String → List (Option Fields) → Result Checked
unfolding await_diagnostics checked
run_check none exists file messages = ok not_checked
run_check (some p) false file messages = ok not_checked
run_check (some p) true file messages = do ds ← await_diagnostics file messages; ok (checked ds)

-- `resp["result"]`, where there is one
unfoldable pub result_field : Option Fields → Json
unfolding has_key get_or
result_field none = null
result_field (some message) = if has_key "result" message then get "result" message else null

module _ (show : Json → String) where
  goal_entry : Json → Json
  goal_entry (obj fs) = obj fs
  goal_entry g = obj (field "text" (str (show g)) end)

  unfoldable pub goals_of : String → String → ℕ → ℕ → Json → List Json
  unfolding goal_entry get_or to_list
  goals_of kind file line column (arr xs) = map goal_entry (to_list xs)
  goals_of kind file line column (obj fs) =
      obj (
        field "kind" (str kind) (
          field "text" (get_or "text" (str (show (obj fs))) fs) (
            field "file" (str file)
              (field "line" (int (pos line)) (field "column" (int (pos column)) end)))))
      ∷ []
  goals_of kind file line column _ = []

  hover_text : Json → Json
  unfolding get_or
  hover_text (obj c) = get_or "value" (obj c) c
  hover_text c = str (show c)

  unfoldable pub hover_of : Json → Json
  unfolding hover_text has_key get_or
  hover_of null = str ""
  hover_of (obj fs) =
      if has_key "contents" fs then hover_text (get "contents" fs) else str (show (obj fs))
  hover_of x = str (show x)

dicts : List Json → List Json
dicts [] = []
dicts (obj fs ∷ xs) = obj fs ∷ dicts xs
dicts (x ∷ xs) = dicts xs

unfoldable pub locations_of : Json → List Json
unfolding dicts to_list
locations_of (arr xs) = dicts (to_list xs)
locations_of (obj fs) = obj fs ∷ []
locations_of _ = []
