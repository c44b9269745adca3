-- ===== src/Text/Lines.antt =====
-- Python's `splitlines`, `split` and `partition`, and `in`, for one character.
pub mod Parts
use Prim.Native.Char.{Char, code}
use lean_lang_chain.Common.{
  ℕ, String, Bool, false, ◌&&◌, ◌||◌, Option, none, some, List, [], ◌∷◌, leb, if◌then◌else◌, true,
}
use lean_lang_chain.Glob.{◌=ᶜ◌}

-- the ends of lines; a carriage return counts alone, or with the line feed after it
unfoldable pub is_break : ℕ → Bool
is_break c =
    (leb 10 c && leb c 13) || (leb 28 c && leb c 30) || (c =ᶜ 133) || (c =ᶜ 8232) || (c =ᶜ 8233)

-- one more character in front of the first part
unfoldable pub onto : Char → List String → List String
onto c [] = String.◌∷◌ c "" ∷ []
onto c (l ∷ ls) = String.◌∷◌ c l ∷ ls

abbrev starts_with : ℕ → String → Bool
starts_with n String.[] = false
starts_with n (String.◌∷◌ c s) = code c =ᶜ n

unfoldable pub splitlines : String → List String
unfolding is_break onto
splitlines String.[] = []
splitlines (String.◌∷◌ c s) =
    let rest = splitlines s in
    if (code c =ᶜ 13) && starts_with 10 s
    then rest
    else if is_break (code c)
    then "" ∷ rest
    else onto c rest

-- `s.split(c)`
unfoldable pub split : ℕ → String → List String
unfolding onto
split n String.[] = "" ∷ []
split n (String.◌∷◌ c s) = let rest = split n s in if code c =ᶜ n then "" ∷ rest else onto c rest

abbrev before : Char → Option (String × String) → Option (String × String)
before c none = none
before c (some (l, r)) = some (String.◌∷◌ c l, r)

-- `s.partition(c)`, none where the character does not occur
unfoldable pub partition : ℕ → String → Option (String × String)
partition n String.[] = none
partition n (String.◌∷◌ c s) =
    let rest = partition n s in if code c =ᶜ n then some ("", s) else before c rest

is_prefix : String → String → Bool
is_prefix String.[] s = true
is_prefix (String.◌∷◌ c p) String.[] = false
is_prefix (String.◌∷◌ c p) (String.◌∷◌ d s) = (code c =ᶜ code d) && is_prefix p s

-- `p in s`
unfoldable pub contains : String → String → Bool
unfolding is_prefix
contains p String.[] = is_prefix p ""
contains p (String.◌∷◌ c s) = is_prefix p (String.◌∷◌ c s) || contains p s
