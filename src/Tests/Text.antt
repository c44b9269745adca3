-- ===== src/Tests/Text.antt =====
-- Python's text functions on concrete texts.
use lean_lang_chain.Common.{◌≡◌, refl, some, none}
use lean_lang_chain.Json.{negsuc}
use lean_lang_chain.Text.Lines.{splitlines}
use lean_lang_chain.Gateway.Batch.Audit.{parse_axiom_stdout}
use lean_lang_chain.Common.{[], ◌∷◌}
use lean_lang_chain.Gateway.Lsp.Messages.{goal_method, run_definition}
use lean_lang_chain.Text.{strip, lower, decimal, parse_int}

strip_test : strip " \t Run sc\n" ≡ "Run sc"
unfolding strip
strip_test = refl

lower_test : lower "FireCracker-1" ≡ "firecracker-1"
unfolding lower
lower_test = refl

decimal_test : decimal 10307 ≡ "10307"
unfolding decimal
decimal_test = refl

parse_int_test : parse_int " -1_2 " ≡ some (negsuc 11)
unfolding parse_int
parse_int_test = refl

decimal_zero : decimal 0 ≡ "0"
unfolding decimal
decimal_zero = refl

splitlines_test : splitlines "a\nb\n\nc\n" ≡ "a" ∷ "b" ∷ "" ∷ "c" ∷ []
unfolding splitlines
splitlines_test = refl

parse_axiom_stdout_test :
    parse_axiom_stdout "building\nfoo : propext, sorryAx ,\n"
    ≡ record { declaration = "foo"; axioms = "propext" ∷ "sorryAx" ∷ [] } ∷ []
unfolding parse_axiom_stdout
parse_axiom_stdout_test = refl

-- a text that has "plain" in it, as both kinds of goals do, asks for the same goal
goal_method_test : goal_method "plainTermGoal" ≡ "$/lean/plainGoal"
unfolding goal_method
goal_method_test = refl

-- a file that is not there is not asked about
run_definition_test :
    run_definition
      (some 7)
      none
      (record { uri = "file:///w/A.lean"; file_path = "A.lean"; line = 1; column = 2 })
      none
    ≡ record { sent = []; result = [] }
unfolding run_definition
run_definition_test = refl
