-- ===== src/Glob.antt =====
-- The parts of Python's `fnmatch` and `os.path` that the policy engine calls, over code points:
-- `fnmatch.fnmatch` (on POSIX, where case is kept), `os.path.basename`, and `replace("\\", "/")`.
use Prim.Native.Char.{code}
use Prim.Native.Nat.{compare, Ordering, suc}
use lean_lang_chain.Common.{
  zero, suc, refl, ℕ, String, Bool, true, false, not, ◌&&◌, ◌||◌, List, [], ◌∷◌, ◌++◌, leb,
  if◌then◌else◌, Option, length, map, ◌≡◌, none, some,
}

abbrev pub codes : String → List ℕ
codes String.[] = []
codes (String.◌∷◌ c s) = code c ∷ codes s

infix 50 ◌=ᶜ◌
abbrev pub ◌=ᶜ◌ : ℕ → ℕ → Bool
a =ᶜ b = elim (compare a b) [ Ordering.eq ↦ true | _ ↦ false ]

pub data Token : Type 0 where
  star one : Token
  lit : ℕ → Token
  set : Bool → List (ℕ × ℕ) → Token

-- `a-z` is a range, any other character stands for itself
ranges : List ℕ → List (ℕ × ℕ)
ranges [] = []
ranges (a ∷ []) = (a, a) ∷ []
ranges (a ∷ b ∷ []) = (a, a) ∷ (b, b) ∷ []
ranges (a ∷ b ∷ c ∷ s) =
    let range = (a, c) ∷ ranges s in
    let single = (a, a) ∷ ranges (b ∷ c ∷ s) in if b =ᶜ b'-' then range else single

-- up to the closing `]`, and what follows it; a `]` in the first place is an ordinary character
close_at : List ℕ → List ℕ → Option (List ℕ × List ℕ)
close_at body [] = none
close_at body (c ∷ s) = if c =ᶜ b']' then some (body, s) else close_at (body ++ c ∷ []) s

after_first : List ℕ → List ℕ → Option (List ℕ × List ℕ)
unfolding close_at
after_first body [] = none
after_first body (c ∷ s) = close_at (body ++ c ∷ []) s

class_of : List ℕ → Option (Bool × List ℕ × List ℕ)
unfolding after_first
class_of [] = none
class_of (c ∷ s) =
    if c =ᶜ b'!'
    then elim (after_first [] s) [ none ↦ none | some (body, rest) ↦ some (true, body, rest) ]
    else elim (after_first [] (c ∷ s)) [
      | none ↦ none
      | some (body, rest) ↦ some (false, body, rest)
    ]

-- `fnmatch.translate`; each round uses a character, so the pattern's length is enough fuel
tokens : ℕ → List ℕ → List Token
unfolding class_of ranges
tokens zero s = []
tokens (suc n) [] = []
tokens (suc n) (c ∷ s) =
    let rest = tokens n s in
    let class : List Token = elim (class_of s) [
      | none ↦ lit c ∷ rest
      | some (neg, body, more) ↦ set neg (ranges body) ∷ tokens n more
    ] in
    if c =ᶜ b'*'
    then star ∷ rest
    else if c =ᶜ b'?'
    then one ∷ rest
    else if c =ᶜ b'['
    then class
    else lit c ∷ rest

in_ranges : ℕ → List (ℕ × ℕ) → Bool
in_ranges c [] = false
in_ranges c ((lo, hi) ∷ rs) = leb lo c && leb c hi || in_ranges c rs

matches : List Token → List ℕ → Bool
unfolding in_ranges
matches [] [] = true
matches [] (c ∷ s) = false
matches (star ∷ ts) [] = matches ts []
matches (star ∷ ts) (c ∷ s) = matches ts (c ∷ s) || matches (star ∷ ts) s
matches (one ∷ ts) [] = false
matches (one ∷ ts) (c ∷ s) = matches ts s
matches (lit a ∷ ts) [] = false
matches (lit a ∷ ts) (c ∷ s) = a =ᶜ c && matches ts s
matches (set neg rs ∷ ts) [] = false
matches (set neg rs ∷ ts) (c ∷ s) =
    (if neg then not (in_ranges c rs) else in_ranges c rs) && matches ts s

-- `fnmatch.fnmatch(name, pattern)` on code points
unfoldable pub fnmatch : List ℕ → List ℕ → Bool
unfolding tokens matches
fnmatch name pattern = matches (tokens (length pattern) pattern) name

last_segment : List ℕ → List ℕ → List ℕ
last_segment cur [] = cur
last_segment cur (c ∷ s) = last_segment (if c =ᶜ b'/' then [] else cur ++ c ∷ []) s

unfoldable pub basename : List ℕ → List ℕ
unfolding last_segment
basename p = last_segment [] p

-- `s.replace("\\", "/")`
unfoldable pub slashes : String → List ℕ
slashes s = map (λ c. if c =ᶜ 0x5c then b'/' else c) (codes s)

star_matches_slash : fnmatch (codes "src/Main.lean") (codes "*.lean") ≡ true
unfolding fnmatch
star_matches_slash = refl

class_matches : fnmatch (codes "b7") (codes "[!x-z][0-9]") ≡ true
unfolding fnmatch
class_matches = refl

basename_of_path : basename (codes "src/Main.lean") ≡ codes "Main.lean"
unfolding basename
basename_of_path = refl
