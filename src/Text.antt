-- ===== src/Text.antt =====
-- The parts of Python's `str` and `int` that the configuration code calls, over code points. `lower`
-- changes the ASCII letters only, and `parse_int` reads the ASCII digits only.
pub mod Lines
use Prim.Native.Char.{Char, code}
use Prim.Native.Nat.{◌/◌, ◌%◌}
use lean_lang_chain.Common.{
  ℕ, zero, suc, ◌+◌, ◌-◌, ◌*◌, String, Bool, true, false, ◌&&◌, ◌||◌, Option, none, some, List, [],
  ◌∷◌, leb, ltb, if◌then◌else◌, ◌==◌,
}
use lean_lang_chain.Json.{ℤ, pos, negsuc}
use lean_lang_chain.Glob.{codes, ◌=ᶜ◌}

-- `str.isspace` of one character
unfoldable pub is_space : ℕ → Bool
is_space c =
    (leb 9 c && leb c 13)
    || (leb 28 c && leb c 32)
    || (c =ᶜ 133)
    || (c =ᶜ 160)
    || (c =ᶜ 5760)
    || (leb 8192 c && leb c 8202)
    || (c =ᶜ 8232)
    || (c =ᶜ 8233)
    || (c =ᶜ 8239)
    || (c =ᶜ 8287)
    || (c =ᶜ 12288)

lstrip : String → String
unfolding is_space
lstrip String.[] = ""
lstrip (String.◌∷◌ c s) = let rest = lstrip s in if is_space (code c) then rest else String.◌∷◌ c s

unfoldable pub keep_front : Char → String → String
unfolding is_space
keep_front c rest = if rest == "" && is_space (code c) then "" else String.◌∷◌ c rest

rstrip : String → String
unfolding keep_front
rstrip String.[] = ""
rstrip (String.◌∷◌ c s) = keep_front c (rstrip s)

-- `str.strip()`
unfoldable pub strip : String → String
unfolding lstrip rstrip
strip s = rstrip (lstrip s)

lower_among : String → String → Char → Char
lower_among (String.◌∷◌ upper us) (String.◌∷◌ small ss) c =
    let rest = lower_among us ss c in if code upper =ᶜ code c then small else rest
lower_among _ _ c = c

-- `str.lower()`
unfoldable pub lower : String → String
unfolding lower_among
lower String.[] = ""
lower (String.◌∷◌ c s) =
    String.◌∷◌ (lower_among "ABCDEFGHIJKLMNOPQRSTUVWXYZ" "abcdefghijklmnopqrstuvwxyz" c) (lower s)

digit_among : String → ℕ → String → String
digit_among String.[] n rest = rest
digit_among (String.◌∷◌ c s) zero rest = String.◌∷◌ c rest
digit_among (String.◌∷◌ c s) (suc n) rest = digit_among s n rest

decimal_onto : ℕ → ℕ → String → String
unfolding digit_among
decimal_onto zero n rest = rest
decimal_onto (suc fuel) n rest =
    let shown = digit_among "0123456789" (n % 10) rest in
    let more = decimal_onto fuel (n / 10) shown in if ltb n 10 then shown else more

-- `str(n)`; a number has at most that many digits and one more
unfoldable pub decimal : ℕ → String
unfolding decimal_onto
decimal n = decimal_onto (suc n) n ""

is_digit : ℕ → Bool
is_digit c = leb b'0' c && leb c b'9'

-- one underscore may stand between two digits
parse_digits : Bool → ℕ → List ℕ → Option ℕ
unfolding is_digit
parse_digits after_digit n [] = if after_digit then some n else none
parse_digits after_digit n (c ∷ s) =
    let next = parse_digits true (n * 10 + (c - b'0')) s in
    let skip = parse_digits false n s in
    if is_digit c then next else if after_digit && (c =ᶜ b'_') then skip else none

abbrev negated : ℕ → ℤ
negated zero = pos 0
negated (suc n) = negsuc n

abbrev as_int : (ℕ → ℤ) → Option ℕ → Option ℤ
as_int sign none = none
as_int sign (some n) = some (sign n)

parse_signed : List ℕ → Option ℤ
unfolding parse_digits
parse_signed [] = none
parse_signed (c ∷ s) =
    if c =ᶜ b'-'
    then as_int negated (parse_digits false 0 s)
    else if c =ᶜ b'+'
    then as_int pos (parse_digits false 0 s)
    else as_int pos (parse_digits false 0 (c ∷ s))

-- `int(s)`; none where it raises ValueError
unfoldable pub parse_int : String → Option ℤ
unfolding parse_signed strip
parse_int s = parse_signed (codes (strip s))
