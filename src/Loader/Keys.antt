-- ===== src/Loader/Keys.antt =====
-- What a merged pack holds: its own keys, and never the keys that name its layers.
use lean_lang_chain.Common.{
  ℕ, zero, suc, String, ◌≡◌, refl, Bool, true, false, ◌||◌, ◌&&◌, subst, Option, List, ◌∷◌, Result,
  ok, raise, type_error, >>=-eq-ok, ok-injective, arith, eq_iff, ◌==◌, if◌then◌else◌, any,
  Bool-cases, inl, inr,
}
use lean_lang_chain.Json.{
  Json, Items, Fields, str, nil, cons, end, field, get, has_key, set, update, truthy,
}
use lean_lang_chain.Json.Laws.{has_key-set}
use lean_lang_chain.Loader.{
  is_layer_key, body_of, merge_imports, merge_base, merge_layers, merge_pack_layers,
  read_yaml_mapping, import_scalar_conflict, strict_of, imports_of,
}

-- no key of a dictionary names its layers
abbrev pub IsMerged : Fields → Type 0
IsMerged fs = (k : String) → is_layer_key k ≡ true → has_key k fs ≡ false

has_key-update :
    (k : String) (fs gs : Fields) → has_key k (update fs gs) ≡ (has_key k fs || has_key k gs)
unfolding update has_key
has_key-update k fs end = ground arith
has_key-update k fs (field j v gs) =
    ground (arith, has_key-update k (set j v fs) gs, has_key-set j k v fs, eq_iff j k)

update-IsMerged : (fs gs : Fields) → IsMerged fs → IsMerged gs → IsMerged (update fs gs)
update-IsMerged fs gs f g k l = ground (arith, has_key-update k fs gs, f k l, g k l)

end-IsMerged : IsMerged end
unfolding has_key
end-IsMerged k l = refl

body-IsMerged : (fs : Fields) → IsMerged (body_of fs)
unfolding body_of has_key
body-IsMerged end k l = refl
body-IsMerged (field j v fs) k l = ground (arith, body-IsMerged fs k l, eq_iff j k)

-- a value that is no text extends nothing, or raises
no-base : (b : Bool) (m : Fields) → (if b then raise type_error else ok end) ≡ ok m → IsMerged m
no-base true m h = absurd cc
no-base false m h = subst IsMerged (ok-injective h) end-IsMerged

module _ (load : String → Result Fields)
    (loaded : (name : String) (m : Fields) → load name ≡ ok m → IsMerged m) where
  base-IsMerged : (ext : Json) (m : Fields) → merge_base load ext ≡ ok m → IsMerged m
  unfolding merge_base
  base-IsMerged (str s) m h = elim (Bool-cases (truthy (str s))) [
    | inl t ↦ loaded s m (rw t at h)
    | inr f ↦ subst IsMerged (ok-injective (rw f at h)) end-IsMerged
  ]
  base-IsMerged ext m h = no-base (truthy ext) m h

  imports-IsMerged :
      (strict : Bool) (imps : Items) (merged m : Fields)
      → IsMerged merged
      → merge_imports load strict imps merged ≡ ok m
      → IsMerged m
  unfolding merge_imports
  imports-IsMerged strict nil merged m i h = subst IsMerged (ok-injective h) i
  imports-IsMerged strict (cons (str imp) imps) merged m i h =
      let (sub, p, h1) = >>=-eq-ok (load imp) _ h in
      elim (Bool-cases (strict && import_scalar_conflict merged sub)) [
        | inl t ↦ absurd (let e = rw t at h1 in cc)
        | inr f ↦
            imports-IsMerged strict imps (update merged sub) m
              (update-IsMerged merged sub i (loaded imp sub p)) (rw f at h1)
      ]
  imports-IsMerged strict (cons _ imps) merged m i h = imports-IsMerged strict imps merged m i h

  layers-IsMerged : (raw m : Fields) → merge_layers load raw ≡ ok m → IsMerged m
  unfolding merge_layers
  layers-IsMerged raw m h =
      let (sub, p, h1) = >>=-eq-ok (merge_base load (get "extends" raw)) _ h in
      let (merged, q, h2) =
        >>=-eq-ok (merge_imports load (strict_of raw) (imports_of raw) (update end sub))
          (λ x. ok (update x (body_of raw))) h1 in
      subst IsMerged (ok-injective h2) (
        update-IsMerged merged (body_of raw)
          (imports-IsMerged (strict_of raw) (imports_of raw) (update end sub) merged
            (update-IsMerged end sub end-IsMerged (base-IsMerged (get "extends" raw) sub p)) q)
          (body-IsMerged raw))

-- A merged pack holds neither the key "extends" nor the key "import", whatever the files hold.
pub merge-IsMerged :
    (files : String → Option (Result Json)) (resolve : String → String) (levels : ℕ) (name : String)
    (visiting : List String) (m : Fields)
    → merge_pack_layers files resolve levels name visiting ≡ ok m
    → IsMerged m
unfolding merge_pack_layers
merge-IsMerged files resolve zero name visiting m h = absurd cc
merge-IsMerged files resolve (suc levels) name visiting m h =
    elim (Bool-cases (any (λ p. p == resolve name) visiting)) [
      | inl t ↦ absurd (let e = rw t at h in cc)
      | inr f ↦
          (let (raw, p, h1) =
              >>=-eq-ok (read_yaml_mapping files resolve (resolve name)) _ (rw f at h) in
            layers-IsMerged _
              (λ sub u e. merge-IsMerged files resolve levels sub (resolve name ∷ visiting) u e) raw
              m h1)
    ]
