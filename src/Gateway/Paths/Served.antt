-- ===== src/Gateway/Paths/Served.antt =====
-- The calls of the client, sent over HTTP and served by the router of the gateway.
use lean_lang_chain.Common.{
  String, true, false, Option, some, none, ◌≡◌, refl, ◌==◌, if◌then◌else◌, Bool-cases, inl, inr,
  subst,
}
use lean_lang_chain.Json.{Fields}
use lean_lang_chain.Sdk.Methods.{
  decision_path, Call, request_of, open_environment, create_session, apply_patch, interactive_check,
  get_goal, hover, definition, batch_verify, get_review_payload, create_pending_review,
  submit_review_decision, resume,
}
use lean_lang_chain.Gateway.Paths.{
  Target, SessionAction, ReviewAction, Router, environments, sessions, reviews, session, review,
  path_of, method_of,
}
use lean_lang_chain.Gateway.Paths.Sent.{Transfer, IsPlain, IsPlain-Fits, arrives-path_of}
use lean_lang_chain.Gateway.Paths.Read.{path_of-injective}

-- the handler that a call is for; a decision other than "approve" and "reject" has none
unfoldable pub target_of : Call → Option Target
target_of (open_environment p) = some environments
target_of (create_session p) = some sessions
target_of (apply_patch s p) = some (session SessionAction.apply_patch s)
target_of (interactive_check s p) = some (session SessionAction.interactive_check s)
target_of (get_goal s p) = some (session SessionAction.goal s)
target_of (hover s p) = some (session SessionAction.hover s)
target_of (definition s p) = some (session SessionAction.definition s)
target_of (batch_verify s p) = some (session SessionAction.batch_verify s)
target_of (get_review_payload t) = some (review ReviewAction.payload t)
target_of (create_pending_review p) = some reviews
target_of (submit_review_decision t d p) =
    if d == "approve"
    then some (review ReviewAction.approve t)
    else if d == "reject"
    then some (review ReviewAction.reject t)
    else none
target_of (resume t) = some (review ReviewAction.resume t)

-- the request goes to the target's path, by its method
abbrev Reaches : Call → Option Target → Type 0
Reaches c none = Unit {0}
Reaches c (some t) = ((request_of c).path ≡ path_of t) × ((request_of c).method ≡ method_of t)

approve-path :
    (t d : String)
    → (d == "approve") ≡ true
    → decision_path t d ≡ path_of (review ReviewAction.approve t)
unfolding decision_path path_of
approve-path t d y = rw y refl

reject-path :
    (t d : String)
    → (d == "approve") ≡ false
    → (d == "reject") ≡ true
    → decision_path t d ≡ path_of (review ReviewAction.reject t)
unfolding decision_path path_of
reject-path t d n y = rw (n, y) refl

decision-Reaches :
    (t d : String) (p : Fields)
    → Reaches (submit_review_decision t d p) (target_of (submit_review_decision t d p))
unfolding request_of target_of path_of method_of
decision-Reaches t d p = elim (Bool-cases (d == "approve")) [
  | inl y ↦ rw y (approve-path t d y, refl)
  | inr n ↦ elim (Bool-cases (d == "reject")) [
    | inl y ↦ rw (n, y) (reject-path t d n y, refl)
    | inr m ↦ rw (n, m) tt
  ]
]

request_of-Reaches : (c : Call) → Reaches c (target_of c)
unfolding request_of target_of path_of method_of
request_of-Reaches (submit_review_decision t d p) = decision-Reaches t d p
request_of-Reaches c = (refl, refl)

module _ (transfer : Transfer) (router : Router) where
  -- A call of the client whose session or thread is of letters, digits, "-", "_" and "~", and not empty,
  -- and whose decision is "approve" or "reject" where it submits one, is served by the handler that it
  -- is for, with that session or thread, whatever httpx and the server make of other paths.
  pub request_of-served :
      (c : Call) (t : Target)
      → target_of c ≡ some t
      → IsPlain t
      → router.serve (request_of c).method (transfer.arrives (request_of c).path) ≡ some t
  request_of-served c t e h =
      let (p, m) = subst (Reaches c) e (request_of-Reaches c) in
      let fits = IsPlain-Fits t h in
      rw (p, m, arrives-path_of transfer t h)
        (router.serve-path_of t fits (λ u k same q. path_of-injective t u fits k q))
