-- ===== src/Gateway/Paths/Read.antt =====
-- The paths of the gateway, read back.
use Prim.Native.String.{◌++◌ as text_append}
use text.Mathlib.TextLemmas.{nil-append, append-nil}
use lean_lang_chain.Common.{
  String, true, Option, some, none, List, [], ◌∷◌, ◌≡◌, refl, ap, sym, ◌∙◌, ◌==◌, if◌then◌else◌,
}
use lean_lang_chain.Text.Lines.{split}
use lean_lang_chain.Text.Lines.Parts.{lacks, graft, split-append, split-lacks}
use lean_lang_chain.Gateway.Paths.{
  Target, SessionAction, ReviewAction, health, ready, metrics, environments, sessions, reviews,
  session, review, session_suffix, review_suffix, path_of, Fits,
}

-- The parts of a path with a parameter that is one segment.
split-path :
    (before id suffix : String)
    → lacks b'/' id ≡ true
    → split b'/' (text_append before (text_append id suffix))
      ≡ graft (split b'/' before) (graft (id ∷ []) (split b'/' suffix))
split-path before id suffix h =
    rw
      (
        split-append b'/' before (text_append id suffix),
        split-append b'/' id suffix,
        split-lacks b'/' id h,
      )
      refl

session_action : String → Option SessionAction
session_action a =
    if a == "apply-patch"
    then some SessionAction.apply_patch
    else if a == "interactive-check"
    then some SessionAction.interactive_check
    else if a == "goal"
    then some SessionAction.goal
    else if a == "hover"
    then some SessionAction.hover
    else if a == "definition"
    then some SessionAction.definition
    else if a == "batch-verify"
    then some SessionAction.batch_verify
    else none

review_action : String → Option ReviewAction
review_action a =
    if a == "approve"
    then some ReviewAction.approve
    else if a == "reject"
    then some ReviewAction.reject
    else if a == "resume"
    then some ReviewAction.resume
    else none

session_target : String → Option SessionAction → Option Target
session_target id none = none
session_target id (some a) = some (session a id)

review_target : String → Option ReviewAction → Option Target
review_target id none = none
review_target id (some a) = some (review a id)

-- the parts of a path below the first
below : String → List String → Option Target
unfolding session_action review_action session_target review_target
below top [] =
    if top == "sessions" then some sessions else if top == "reviews" then some reviews else none
below top (id ∷ []) =
    if top == "environments"
    then some environments
    else review_target id (some ReviewAction.payload)
below top (id ∷ action ∷ rest) =
    if top == "sessions"
    then session_target id (session_action action)
    else review_target id (review_action action)

probe : String → Option Target
probe a = if a == "health" then some health else if a == "ready" then some ready else some metrics

-- the target of a path that has one
unfoldable pub target_at : List String → Option Target
unfolding below probe
target_at (_ ∷ a ∷ []) = probe a
target_at (_ ∷ v1 ∷ top ∷ rest) = below top rest
target_at _ = none

-- One clause names a constructor, so that the other is checked at each of the rest.
session-read :
    (a : SessionAction) (id : String)
    → lacks b'/' id ≡ true
    → target_at (split b'/' (path_of (session a id))) ≡ some (session a id)
unfolding target_at path_of split
session-read SessionAction.goal id h =
    rw (split-path "/v1/sessions/" id "/goal" h)
      (rw (nil-append (text_append id ""), append-nil id) refl)
session-read a id h =
    rw (split-path "/v1/sessions/" id (session_suffix a) h)
      (rw (nil-append (text_append id ""), append-nil id) refl)

review-read :
    (a : ReviewAction) (id : String)
    → lacks b'/' id ≡ true
    → target_at (split b'/' (path_of (review a id))) ≡ some (review a id)
unfolding target_at path_of split
review-read ReviewAction.payload id h =
    rw (split-path "/v1/reviews/" id "" h) (rw (nil-append (text_append id ""), append-nil id) refl)
review-read a id h =
    rw (split-path "/v1/reviews/" id (review_suffix a) h)
      (rw (nil-append (text_append id ""), append-nil id) refl)

pub target_at-path_of : (t : Target) → Fits t → target_at (split b'/' (path_of t)) ≡ some t
unfolding target_at path_of split
target_at-path_of health h = refl
target_at-path_of ready h = refl
target_at-path_of metrics h = refl
target_at-path_of environments h = refl
target_at-path_of sessions h = refl
target_at-path_of reviews h = refl
target_at-path_of (session a id) h = session-read a id h.0
target_at-path_of (review a id) h = review-read a id h.0

pub some-injective : {A : Type 0} {x y : A} → ◌≡◌ {A = Option A} (some x) (some y) → x ≡ y
some-injective e = cc

-- Two targets with one path are one target.
pub path_of-injective : (t u : Target) → Fits t → Fits u → path_of u ≡ path_of t → u ≡ t
path_of-injective t u h k e =
    some-injective
      (sym (target_at-path_of u k) ∙ ap (λ p. target_at (split b'/' p)) e ∙ target_at-path_of t h)
