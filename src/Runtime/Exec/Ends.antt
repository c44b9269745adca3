-- ===== src/Runtime/Exec/Ends.antt =====
-- What holds of each value that a chain of calls returns.
use lean_lang_chain.Common.{
  Bool, true, false, ◌≡◌, refl, Result, ok, raise, ok-injective, subst, if◌then◌else◌,
}
use lean_lang_chain.Common.{◌>>=◌ as bind}

module _ {B : Type 0} (P : B → Type 0) where
  -- of each value that is returned
  abbrev pub Yields : Result B → Type 0
  Yields r = (b : B) → r ≡ ok b → P b

  pub ok-Yields : (b : B) → P b → Yields (ok b)
  ok-Yields b p c e = subst P (ok-injective e) p

  pub bind-Yields :
      {A : Type 0} (r : Result A) (f : A → Result B)
      → ((a : A) → r ≡ ok a → Yields (f a))
      → Yields (bind r f)
  bind-Yields (raise e) f h b q = absurd cc
  bind-Yields (ok a) f h b q = h a refl b q

  pub if-Yields : (b : Bool) (x y : Result B) → Yields x → Yields y → Yields (if b then x else y)
  if-Yields true x y h k = h
  if-Yields false x y h k = k
