-- ===== src/Gateway/Paths.antt =====
-- The routes of the gateway: packages/schemas/lean_langchain_schemas/api_paths.py, the decorators of
-- apps/lean-gateway/lean_langchain_gateway/api/routes_*.py, and create_app of api/app.py, which mounts all
-- but the probes under /v1. The router itself is a library's.
pub mod Read
pub mod Sent
pub mod Served
use Prim.Native.String.{◌++◌ as text_append}
use lean_lang_chain.Common.{
  String, Bool, true, false, not, ◌&&◌, Option, some, none, ◌≡◌, ◌==◌, if◌then◌else◌,
}
use lean_lang_chain.Text.Lines.Parts.{lacks}
use lean_lang_chain.Sdk.Methods.{Method, post, get}

pub data SessionAction : Type 0 where
  apply_patch interactive_check goal hover definition batch_verify : SessionAction

pub data ReviewAction : Type 0 where
  payload approve reject resume : ReviewAction

-- a handler, with what the path gives it
pub data Target : Type 0 where
  health ready metrics environments sessions reviews : Target
  session : SessionAction → String → Target
  review : ReviewAction → String → Target

-- what stands after the parameter in a template
abbrev pub session_suffix : SessionAction → String
session_suffix SessionAction.apply_patch = "/apply-patch"
session_suffix SessionAction.interactive_check = "/interactive-check"
session_suffix SessionAction.goal = "/goal"
session_suffix SessionAction.hover = "/hover"
session_suffix SessionAction.definition = "/definition"
session_suffix SessionAction.batch_verify = "/batch-verify"

abbrev pub review_suffix : ReviewAction → String
review_suffix ReviewAction.payload = ""
review_suffix ReviewAction.approve = "/approve"
review_suffix ReviewAction.reject = "/reject"
review_suffix ReviewAction.resume = "/resume"

unfoldable pub path_of : Target → String
path_of health = "/health"
path_of ready = "/ready"
path_of metrics = "/metrics"
path_of environments = "/v1/environments/open"
path_of sessions = "/v1/sessions"
path_of reviews = "/v1/reviews"
path_of (session action id) = text_append "/v1/sessions/" (text_append id (session_suffix action))
path_of (review action id) = text_append "/v1/reviews/" (text_append id (review_suffix action))

unfoldable pub method_of : Target → Method
method_of health = get
method_of ready = get
method_of metrics = get
method_of (review ReviewAction.payload id) = get
method_of _ = post

-- the parameter is one segment of the path
abbrev pub Fits : Target → Type 0
Fits (session action id) = (lacks b'/' id ≡ true) × ((id == "") ≡ false)
Fits (review action id) = (lacks b'/' id ≡ true) × ((id == "") ≡ false)
Fits _ = Unit {0}

-- A router that is documented to match a parameter with one segment of the path: where a path is that
-- of one target alone, among those of its method, it serves that target.
pub record Router : Type 0 where
  pub serve : Method → String → Option Target
  pub serve-path_of :
      (t : Target)
      → Fits t
      → ((u : Target) → Fits u → method_of u ≡ method_of t → path_of u ≡ path_of t → u ≡ t)
      → serve (method_of t) (path_of t) ≡ some t
