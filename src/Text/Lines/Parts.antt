-- ===== src/Text/Lines/Parts.antt =====
-- `split` of a text that is put together.
use Prim.Native.Char.{Char, code}
use Prim.Native.String.{◌++◌ as text_append}
use text.Mathlib.TextLemmas.{nil-append, cons-append}
use lean_lang_chain.Common.{
  ℕ, String, Bool, true, false, not, ◌&&◌, List, [], ◌∷◌, ◌≡◌, refl, sym, Bool-cases, inl, inr,
}
use lean_lang_chain.Glob.{◌=ᶜ◌}
use lean_lang_chain.Text.Lines.{split, onto}

abbrev paste : String → List String → List String
paste x [] = x ∷ []
paste x (y ∷ ys) = text_append x y ∷ ys

-- the parts of two texts that follow one another: the last part of the first goes on in the second
abbrev pub graft : List String → List String → List String
graft [] ys = ys
graft (x ∷ []) ys = paste x ys
graft (x ∷ y ∷ xs) ys = x ∷ graft (y ∷ xs) ys

onto-some : (c : Char) (ls : List String) → (x : String) × (xs : List String) × (onto c ls ≡ x ∷ xs)
unfolding onto
onto-some c [] = (String.◌∷◌ c "", [], refl)
onto-some c (l ∷ ls) = (String.◌∷◌ c l, ls, refl)

split-some : (n : ℕ) (s : String) → (x : String) × (xs : List String) × (split n s ≡ x ∷ xs)
unfolding split
split-some n String.[] = ("", [], refl)
split-some n (String.◌∷◌ c s) = elim (Bool-cases (code c =ᶜ n)) [
  | inl e ↦ ("", split n s, rw e refl)
  | inr e ↦ let (x, xs, p) = onto-some c (split n s) in (x, xs, rw e p)
]

paste-nil : (ys : List String) (y : String) (r : List String) → ys ≡ y ∷ r → paste "" ys ≡ ys
paste-nil [] y r e = cc
paste-nil (z ∷ zs) y r e = rw (nil-append z) refl

onto-graft :
    (c : Char) (xs ys : List String) (x : String) (r : List String)
    → xs ≡ x ∷ r
    → graft (onto c xs) ys ≡ onto c (graft xs ys)
unfolding onto
onto-graft c [] ys x r e = cc
onto-graft c (z ∷ []) [] x r e = refl
onto-graft c (z ∷ []) (y ∷ ys) x r e = rw (cons-append c z y) refl
onto-graft c (z ∷ w ∷ zs) ys x r e = refl

cons-graft :
    (z : String) (xs ys : List String) (x : String) (r : List String)
    → xs ≡ x ∷ r
    → graft (z ∷ xs) ys ≡ z ∷ graft xs ys
cons-graft z [] ys x r e = cc
cons-graft z (w ∷ zs) ys x r e = refl

-- The parts of a text that is put together are the parts of its texts, grafted.
pub split-append :
    (n : ℕ) (p r : String) → split n (text_append p r) ≡ graft (split n p) (split n r)
unfolding split
split-append n String.[] r =
    let (y, ys, e) = split-some n r in rw (nil-append r) (sym (paste-nil (split n r) y ys e))
split-append n (String.◌∷◌ c s) r =
    let (x, xs, e) = split-some n s in
    rw (cons-append c s r) (elim (Bool-cases (code c =ᶜ n)) [
      | inl t ↦ rw (t, split-append n s r) (sym (cons-graft "" (split n s) (split n r) x xs e))
      | inr f ↦ rw (f, split-append n s r) (sym (onto-graft c (split n s) (split n r) x xs e))
    ])

-- no character of the text is the one
unfoldable pub lacks : ℕ → String → Bool
lacks n String.[] = true
lacks n (String.◌∷◌ c s) = not (code c =ᶜ n) && lacks n s

lacks-cons : (b k : Bool) → not b && k ≡ true → (b ≡ false) × (k ≡ true)
lacks-cons true k h = cc
lacks-cons false k h = (refl, h)

-- A text without the character is its own only part.
pub split-lacks : (n : ℕ) (s : String) → lacks n s ≡ true → split n s ≡ s ∷ []
unfolding split lacks onto
split-lacks n String.[] h = refl
split-lacks n (String.◌∷◌ c s) h =
    let (f, k) = lacks-cons (code c =ᶜ n) (lacks n s) h in rw (f, split-lacks n s k) refl
