-- ===== src/Gateway/Interactive/Numbered.antt =====
-- The reports of checks that ask the language server (lsp_client.py with normalizers.py). The
-- severities of the server's protocol are numbers.
use lean_lang_chain.Common.{
  String, ◌≡◌, Bool, true, false, not, ◌&&◌, Option, none, some, List, [], ◌∷◌, Result, ok, raise,
  ◌>>=◌, if◌then◌else◌, arith, all,
}
use lean_lang_chain.Json.{
  pos, Json, Fields, null, bool, int, str, arr, obj, end, get, get_or, is_str, dict_get_or,
  dict_get, or_dict, has_key, nil,
}
use lean_lang_chain.Policy.Engine.{iterate}
use lean_lang_chain.Gateway.Lsp.Requests.{
  diagnostic, diagnostics_of, published, await_diagnostics, plus_one, end_of,
}

-- what a call returns, where it returns
abbrev pub Ensures {ℓ κ} : {A : Type ℓ} → (A → Type κ) → Result A → Type κ
Ensures P (raise e) = Unit
Ensures P (ok a) = P a

>>=-Ensures {ℓ κ ι} :
    {A : Type ℓ} {B : Type κ} (P : B → Type ι) (m : Result A) (f : A → Result B)
    → ((a : A) → Ensures P (f a))
    → Ensures P (m >>= f)
>>=-Ensures P (raise e) f h = tt
>>=-Ensures P (ok a) f h = h a

abbrev pub is_text : Json → Bool
is_text (str s) = true
is_text _ = false

-- a diagnostic as the server sends it has a number, or nothing, as its severity
abbrev pub is_numbered : Json → Bool
is_numbered (obj fs) = not (is_text (get_or "severity" (int (pos 1)) fs))
is_numbered _ = true

abbrev pub Numbered : Fields → Type 0
Numbered fs = is_text (get_or "severity" (str "error") fs) ≡ false

not-true : {b : Bool} → not b ≡ true → b ≡ false
not-true {b} h = ground arith

diagnostic-Numbered :
    (file : String) (d : Json) → is_numbered d ≡ true → Ensures Numbered (diagnostic file d)
unfolding diagnostic get_or dict_get_or
diagnostic-Numbered file (obj fs) h =
    >>=-Ensures Numbered (dict_get_or (get_or "range" (obj end) fs) "start" (obj end)) _ λ start.
      >>=-Ensures Numbered (dict_get (get_or "range" (obj end) fs) "end") _ λ last.
        >>=-Ensures Numbered (end_of last "line" plus_one) _ λ end_line.
          >>=-Ensures Numbered (end_of last "character" (λ c. ok c)) _ λ end_col.
            >>=-Ensures Numbered (dict_get_or start "line" (int (pos 0))) _ λ start_line.
              >>=-Ensures Numbered (plus_one start_line) _ λ line.
                >>=-Ensures Numbered (dict_get_or start "character" (int (pos 0))) _
                  λ column. not-true h
diagnostic-Numbered file null h = tt
diagnostic-Numbered file (bool b) h = tt
diagnostic-Numbered file (int n) h = tt
diagnostic-Numbered file (str s) h = tt
diagnostic-Numbered file (arr xs) h = tt

abbrev pub AllNumbered : List Fields → Type 0
AllNumbered [] = Unit
AllNumbered (d ∷ ds) = Numbered d × AllNumbered ds

diagnostics_of-AllNumbered :
    (file : String) (ds : List Json)
    → all is_numbered ds ≡ true
    → Ensures AllNumbered (diagnostics_of file ds)
unfolding diagnostics_of
diagnostics_of-AllNumbered file [] h = tt
diagnostics_of-AllNumbered file (d ∷ ds) h =
    two (diagnostic file d) (diagnostics_of file ds) (diagnostic-Numbered file d (ground arith))
      (diagnostics_of-AllNumbered file ds (ground arith))
  where
    two :
        (first : Result Fields) (rest : Result (List Fields))
        → Ensures Numbered first
        → Ensures AllNumbered rest
        → Ensures AllNumbered (do x ← first; xs ← rest; ok (x ∷ xs))
    two (raise e) rest p q = tt
    two (ok x) (raise e) p q = tt
    two (ok x) (ok xs) p q = (p, q)

-- the diagnostics that a message would publish
abbrev listed : Json → Result (List Json)
listed params = do ds ← dict_get_or params "diagnostics" (arr nil); iterate ds

abbrev all_numbered : Result (List Json) → Bool
all_numbered (raise e) = true
all_numbered (ok ds) = all is_numbered ds

-- what a message publishes has severities that are numbers or left out
abbrev pub is_numbered_message : Option Fields → Bool
is_numbered_message none = true
is_numbered_message (some message) = all_numbered (listed (or_dict (get "params" message)))

published-AllNumbered :
    (file : String) (params : Json)
    → all_numbered (listed params) ≡ true
    → Ensures AllNumbered (published file params)
unfolding published dict_get_or
published-AllNumbered file (obj fs) h = go (iterate (get_or "diagnostics" (arr nil) fs)) h
  where
    go :
        (ds : Result (List Json))
        → all_numbered ds ≡ true
        → Ensures AllNumbered (ds >>= diagnostics_of file)
    go (raise e) h = tt
    go (ok ds) h = diagnostics_of-AllNumbered file ds h
published-AllNumbered file null h = tt
published-AllNumbered file (bool b) h = tt
published-AllNumbered file (int n) h = tt
published-AllNumbered file (str s) h = tt
published-AllNumbered file (arr xs) h = tt

pub await-AllNumbered :
    (file : String) (messages : List (Option Fields))
    → all is_numbered_message messages ≡ true
    → Ensures AllNumbered (await_diagnostics file messages)
unfolding await_diagnostics
await-AllNumbered file [] h = tt
await-AllNumbered file (none ∷ rest) h = tt
await-AllNumbered file (some message ∷ rest) h =
    choose (is_str "textDocument/publishDiagnostics" (get "method" message))
      (has_key "id" message && has_key "result" message)
      (await-AllNumbered file rest (ground arith))
  where
    choose :
        (a b : Bool)
        → Ensures AllNumbered (await_diagnostics file rest)
        → Ensures AllNumbered (
            if a
            then published file (or_dict (get "params" message))
            else if b
            then ok []
            else await_diagnostics file rest)
    choose true b later = published-AllNumbered file (or_dict (get "params" message)) (ground arith)
    choose false true later = tt
    choose false false later = later
