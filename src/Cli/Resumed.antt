-- ===== src/Cli/Resumed.antt =====
-- `obr resume`: what a decision comes to.
use lean_lang_chain.Common.{String, Bool, not, ◌||◌, ◌==◌, if◌then◌else◌}
use lean_lang_chain.Json.{str, field, end, int, pos}
use lean_lang_chain.Runtime.Graph.{Deps}
use lean_lang_chain.Cli.{Output, tells}

-- what is told of a resumed run
abbrev pub resume_output : Bool → Output
resume_output is_rejected =
    if is_rejected
    then tells 0 (field "status" (str "rejected") (field "artifacts_count" (int (pos 0)) end))
    else tells 0 (field "status" (str "accepted") (field "artifacts_count" (int (pos 1)) end))

module _ {G : Type 0} (d : Deps G) (thread : String) (g : G) where
  abbrev known : String → String
  known word = if not (word == "approved" || word == "rejected") then "approved" else word
