-- ===== src/Runtime/Exec.antt =====
-- Calls of the gateway: each reads and changes the gateway's state, and returns or raises. A change
-- that was made before an exception stays made.
pub mod Ends
use lean_lang_chain.Common.{String, Exc, Result, ok, raise, List}
use lean_lang_chain.Json.{Json}
use lean_lang_chain.Policy.Patch.{Patch}

abbrev pub Exec : Type 0 → Type 0 → Type 0
Exec G A = G → Result A × G

module _ {G : Type 0} where
  abbrev pub pure : {A : Type 0} → A → Exec G A
  pure a g = (ok a, g)

  abbrev pub fail : {A : Type 0} → Exc → Exec G A
  fail e g = (raise e, g)

  abbrev pub lift : {A : Type 0} → Result A → Exec G A
  lift r g = (r, g)

  abbrev continue : {A B : Type 0} → Result A → (A → Exec G B) → Exec G B
  continue (ok a) f g = f a g
  continue (raise e) f g = (raise e, g)

  infixl 5 ◌>>=◌ ◌>>◌
  abbrev pub ◌>>=◌ : {A B : Type 0} → Exec G A → (A → Exec G B) → Exec G B
  ◌>>=◌ m f g = continue (m g).0 f (m g).1

  abbrev pub ◌>>◌ : {A B : Type 0} → Exec G A → Exec G B → Exec G B
  m >> k = m >>= λ _. k

  -- `try: m; except Exception: pass`
  abbrev pub attempt : {A : Type 0} → Exec G A → Exec G (Unit {0})
  attempt m g = (ok tt, (m g).1)

-- The SDK client over a gateway in the state `G`: the calls that the graph makes, with the answers
-- as dictionaries (packages/sdk-py/lean_langchain_sdk/client.py over HTTP).
pub record Client (G : Type 0) : Type 1 where
  pub open_environment : Json → Json → String → Exec G Json
  pub create_session : Json → Exec G Json
  pub apply_patch : Json → Patch → Exec G Json
  pub interactive_check : Json → String → Exec G Json
  pub batch_verify : Json → List String → List String → Exec G Json
  pub create_pending_review : Json → Exec G Json
