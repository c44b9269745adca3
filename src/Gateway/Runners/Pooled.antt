-- ===== src/Gateway/Runners/Pooled.antt =====
-- The runners that the environment selects (server/runner.py): at most one pool, with room in it.
use lean_lang_chain.Common.{
  zero, suc, if◌then◌else◌, ◌==◌, String, ◌≡◌, refl, Bool, true, false, Option, none, some, ok,
  >>=-eq-ok, ok-injective, arith, ◌<◌, Bool-cases, subst, inl, inr,
}
use lean_lang_chain.Json.{ℤ, pos, negsuc}
use lean_lang_chain.Text.{strip, parse_int}
use lean_lang_chain.Gateway.Runners.{
  or_default, Env, LeanRunner, local, container, microvm, firecracker, pool_limited,
}
use lean_lang_chain.Gateway.Runners.Select.{
  get_runner, inner_runner, maybe_pool_limit, microvm_runner, of_runtime, container_of, limited,
  lane_kind, script_runner, set_text,
}

-- whether the runner is a pool
abbrev pub is_pool : LeanRunner → Bool
is_pool (pool_limited inner n) = true
is_pool _ = false

-- a pool has room for a run and holds no other pool
abbrev pub IsPooled : LeanRunner → Type 0
IsPooled (pool_limited inner n) = (0 < n) × (is_pool inner ≡ false)
IsPooled _ = Unit {0}

of_plain : (r : LeanRunner) → is_pool r ≡ false → IsPooled r
of_plain local h = tt
of_plain (container image docker) h = tt
of_plain (microvm image docker runtime) h = tt
of_plain (firecracker base) h = tt
of_plain (pool_limited inner n) h = absurd cc

limited-IsPooled : (r : LeanRunner) (n : Option ℤ) → is_pool r ≡ false → IsPooled (limited r n)
limited-IsPooled r (some (pos (suc n))) h = (omega arith, h)
limited-IsPooled r (some (pos zero)) h = of_plain r h
limited-IsPooled r (some (negsuc n)) h = of_plain r h
limited-IsPooled r none h = of_plain r h

maybe_pool_limit-IsPooled :
    (env : Env) (lane : Bool) (r : LeanRunner)
    → is_pool r ≡ false
    → IsPooled (maybe_pool_limit env lane r)
unfolding maybe_pool_limit
maybe_pool_limit-IsPooled env lane r h = limit_text (
    strip
      (or_default "" (env (if lane then "OBR_INTERACTIVE_RUNNER_MAX" else "OBR_BATCH_RUNNER_MAX"))))
  where
    limit_text : (raw : String) → IsPooled (if raw == "" then r else limited r (parse_int raw))
    limit_text raw = elim (Bool-cases (raw == "")) [
      | inl e ↦ rw e (of_plain r h)
      | inr e ↦ rw e (limited-IsPooled r (parse_int raw) h)
    ]

script_runner-plain :
    (script : Option String) {r : LeanRunner} → script_runner script ≡ ok r → is_pool r ≡ false
script_runner-plain none e = cc
script_runner-plain (some script) e = subst (λ x. is_pool x ≡ false) (ok-injective e) refl

microvm_runner-plain :
    (env : Env) (lane : Bool) {r : LeanRunner} → microvm_runner env lane ≡ ok r → is_pool r ≡ false
unfolding microvm_runner of_runtime
microvm_runner-plain env lane e =
    ground (arith, script_runner-plain (set_text (env "OBR_MICROVM_FIRECRACKER_RUN")))

inner_runner-plain :
    (env : Env) (lane : Bool) (kind : String) {r : LeanRunner}
    → inner_runner env lane kind ≡ ok r
    → is_pool r ≡ false
unfolding inner_runner container_of microvm_runner of_runtime
inner_runner-plain env lane kind e = ground (arith, microvm_runner-plain env lane)

-- The runner that the environment selects for a lane is in at most one pool, and such a pool has
-- room for at least one run.
pub get_runner-IsPooled :
    (env : Env) (lane : Bool) {r : LeanRunner} → get_runner env lane ≡ ok r → IsPooled r
unfolding get_runner
get_runner-IsPooled env lane {r} e =
    let (inner, p, q) = >>=-eq-ok (inner_runner env lane (lane_kind env lane)) _ e in
    subst IsPooled (ok-injective q) (
      maybe_pool_limit-IsPooled env lane inner (inner_runner-plain env lane (lane_kind env lane) p))
