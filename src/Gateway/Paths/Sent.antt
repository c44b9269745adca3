-- ===== src/Gateway/Paths/Sent.antt =====
-- What becomes of a path on its way from httpx to the gateway: a "?" or a "#" in it would end it, a "%" or
-- a segment of dots would be read otherwise, so only a path without them is known to arrive as it is.
use Prim.Native.String.{◌++◌ as text_append}
use Prim.Native.Char.{code}
use text.Mathlib.TextLemmas.{nil-append, cons-append}
use lean_lang_chain.Common.{
  ℕ, String, Bool, true, false, not, ◌&&◌, ◌||◌, ◌≡◌, refl, ◌==◌, leb, if◌then◌else◌, Bool-cases,
  inl, inr, arith,
}
use lean_lang_chain.Glob.{◌=ᶜ◌}
use lean_lang_chain.Text.Lines.Parts.{lacks}
use lean_lang_chain.Gateway.Paths.{
  Target, SessionAction, ReviewAction, session, review, path_of, Fits, session_suffix,
  review_suffix,
}

-- a letter, a digit, "-", "_" or "~": the unreserved characters of RFC 3986 but the dot
unfoldable pub is_unreserved : ℕ → Bool
is_unreserved c =
    leb 48 c && leb c 57
    || leb 65 c && leb c 90
    || leb 97 c && leb c 122
    || c =ᶜ 45
    || c =ᶜ 95
    || c =ᶜ 126

-- unreserved characters and single slashes; `b` says whether a slash stands before the text
unfoldable pub is_clean : (b : Bool) → String → Bool
is_clean b String.[] = true
is_clean b (String.◌∷◌ c s) =
    let after_slash = is_clean true s in
    let after_other = is_clean false s in
    if code c =ᶜ b'/' then not b && after_slash else is_unreserved (code c) && after_other

-- whether a slash stands before what comes after the text
unfoldable pub at_slash : (b : Bool) → String → Bool
at_slash b String.[] = b
at_slash b (String.◌∷◌ c s) = at_slash (code c =ᶜ b'/') s

-- an identifier of unreserved characters
unfoldable pub all_unreserved : String → Bool
all_unreserved String.[] = true
all_unreserved (String.◌∷◌ c s) = is_unreserved (code c) && all_unreserved s

-- What httpx sends of a path and what the server reads of it, which RFC 3986 leaves as it is where the path
-- starts with a slash and has unreserved characters, without dots, between single slashes.
pub record Transfer : Type 0 where
  pub arrives : String → String
  pub arrives-clean :
      (path : String)
      → is_clean false path ≡ true
      → at_slash false path ≡ false
      → arrives path ≡ path

clean-append :
    (b : Bool) (p r : String)
    → is_clean b (text_append p r) ≡ (is_clean b p && is_clean (at_slash b p) r)
unfolding is_clean at_slash
clean-append b String.[] r = rw (nil-append r) refl
clean-append b (String.◌∷◌ c s) r = rw (cons-append c s r) (elim (Bool-cases (code c =ᶜ b'/')) [
  | inl t ↦ rw (t, clean-append true s r) (assoc (not b) (is_clean true s) _)
  | inr f ↦ rw (f, clean-append false s r) (assoc (is_unreserved (code c)) (is_clean false s) _)
])
  where
    assoc : (x y z : Bool) → (x && (y && z)) ≡ ((x && y) && z)
    assoc true y z = refl
    assoc false y z = refl

not_slash : (c : ℕ) → is_unreserved c ≡ true → (c =ᶜ b'/') ≡ false
unfolding is_unreserved
not_slash c h = ground arith

at_slash-append :
    (b : Bool) (p r : String) → at_slash b (text_append p r) ≡ at_slash (at_slash b p) r
unfolding at_slash
at_slash-append b String.[] r = rw (nil-append r) refl
at_slash-append b (String.◌∷◌ c s) r = rw (cons-append c s r) (at_slash-append (code c =ᶜ b'/') s r)

both : (x y : Bool) → x && y ≡ true → (x ≡ true) × (y ≡ true)
both true y h = (refl, h)
both false y h = cc

all_unreserved-lacks : (s : String) → all_unreserved s ≡ true → lacks b'/' s ≡ true
unfolding all_unreserved lacks
all_unreserved-lacks String.[] h = refl
all_unreserved-lacks (String.◌∷◌ c s) h =
    let (u, k) = both (is_unreserved (code c)) (all_unreserved s) h in
    rw (not_slash (code c) u, all_unreserved-lacks s k) refl

all_unreserved-is_clean : (b : Bool) (s : String) → all_unreserved s ≡ true → is_clean b s ≡ true
unfolding all_unreserved is_clean
all_unreserved-is_clean b String.[] h = refl
all_unreserved-is_clean b (String.◌∷◌ c s) h =
    let (u, k) = both (is_unreserved (code c)) (all_unreserved s) h in
    rw (not_slash (code c) u, u, all_unreserved-is_clean false s k) refl

all_unreserved-at_slash : (s : String) → all_unreserved s ≡ true → at_slash false s ≡ false
unfolding all_unreserved at_slash
all_unreserved-at_slash String.[] h = refl
all_unreserved-at_slash (String.◌∷◌ c s) h =
    let (u, k) = both (is_unreserved (code c)) (all_unreserved s) h in
    rw (not_slash (code c) u) (all_unreserved-at_slash s k)

at_slash-segment :
    (b : Bool) (s : String) → all_unreserved s ≡ true → (s == "") ≡ false → at_slash b s ≡ false
unfolding all_unreserved at_slash
at_slash-segment b String.[] h n = cc
at_slash-segment b (String.◌∷◌ c s) h n =
    let (u, k) = both (is_unreserved (code c)) (all_unreserved s) h in
    rw (not_slash (code c) u) (all_unreserved-at_slash s k)

-- a text that is sent as it is
abbrev pub IsSent : String → Type 0
IsSent p = (is_clean false p ≡ true) × (at_slash false p ≡ false)

segment-IsSent :
    (before id suffix : String)
    → all_unreserved id ≡ true
    → (id == "") ≡ false
    → is_clean false before ≡ true
    → at_slash false before ≡ true
    → IsSent suffix
    → IsSent (text_append before (text_append id suffix))
segment-IsSent before id suffix u n cb ab (cs, as') = (
  rw
      (
        clean-append false before (text_append id suffix),
        cb,
        ab,
        clean-append true id suffix,
        all_unreserved-is_clean true id u,
        at_slash-segment true id u n,
        cs,
      )
      refl,
  rw
      (
        at_slash-append false before (text_append id suffix),
        ab,
        at_slash-append true id suffix,
        at_slash-segment true id u n,
        as',
      )
      refl,
)

session_suffix-IsSent : (a : SessionAction) → IsSent (session_suffix a)
unfolding is_clean at_slash is_unreserved
session_suffix-IsSent SessionAction.apply_patch = (refl, refl)
session_suffix-IsSent SessionAction.interactive_check = (refl, refl)
session_suffix-IsSent SessionAction.goal = (refl, refl)
session_suffix-IsSent SessionAction.hover = (refl, refl)
session_suffix-IsSent SessionAction.definition = (refl, refl)
session_suffix-IsSent SessionAction.batch_verify = (refl, refl)

review_suffix-IsSent : (a : ReviewAction) → IsSent (review_suffix a)
unfolding is_clean at_slash is_unreserved
review_suffix-IsSent ReviewAction.payload = (refl, refl)
review_suffix-IsSent ReviewAction.approve = (refl, refl)
review_suffix-IsSent ReviewAction.reject = (refl, refl)
review_suffix-IsSent ReviewAction.resume = (refl, refl)

-- the identifier is of unreserved characters and not empty
abbrev pub IsPlain : Target → Type 0
IsPlain (session action id) = (all_unreserved id ≡ true) × ((id == "") ≡ false)
IsPlain (review action id) = (all_unreserved id ≡ true) × ((id == "") ≡ false)
IsPlain _ = Unit {0}

pub IsPlain-Fits : (t : Target) → IsPlain t → Fits t
IsPlain-Fits (session a id) (u, n) = (all_unreserved-lacks id u, n)
IsPlain-Fits (review a id) (u, n) = (all_unreserved-lacks id u, n)
IsPlain-Fits _ h = tt

path_of-IsSent : (t : Target) → IsPlain t → IsSent (path_of t)
unfolding path_of is_clean at_slash is_unreserved
path_of-IsSent (session a id) (u, n) =
    segment-IsSent "/v1/sessions/" id (session_suffix a) u n refl refl (session_suffix-IsSent a)
path_of-IsSent (review a id) (u, n) =
    segment-IsSent "/v1/reviews/" id (review_suffix a) u n refl refl (review_suffix-IsSent a)
path_of-IsSent _ h = (refl, refl)

pub arrives-path_of :
    (transfer : Transfer) (t : Target) → IsPlain t → transfer.arrives (path_of t) ≡ path_of t
arrives-path_of transfer t h =
    let (c, a) = path_of-IsSent t h in transfer.arrives-clean (path_of t) c a
