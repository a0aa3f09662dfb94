-- ===== src/Calldata/Named.antt =====
-- calldata.py: `_named_input` leaves the types of an ABI input as they are.
use Prim.Native.String.{◌++◌}
use almanak_keeperhub.Prelude.{
  ℕ, suc, String, ◌≡◌, refl, sym, ◌∙◌, Bool, true, false, str_eq, eq_iff, Bool-cases, inl, inr,
}
use almanak_keeperhub.Python.Text.{show}
use almanak_keeperhub.Python.Json.{
  Value, Items, Dict, null, bool, num, str, arr, obj, nil, cons, empty, entry, put, get, truthy,
  find-put,
}
use almanak_keeperhub.Errors.{Result, ok, err, ◌>>=◌, ok-steps}
use almanak_keeperhub.Calldata.Inputs.{
  type_text, canonical_types, canonical_type, components_types, listed_types,
}
use almanak_keeperhub.Calldata.Canonical.{canonical_types-nil, canonical_types-cons}
use almanak_keeperhub.Calldata.Values.{
  filled, is_tuple, with_components, named_inputs, named_components, named_listed,
}

module _ (repr : Value → String) where
  components_types-put :
      (k : String) (v : Value) (d : Dict)
      → str_eq k "components" ≡ false
      → components_types repr (put k v d) ≡ components_types repr d
  unfolding components_types put
  components_types-put k v empty h = rw h
  components_types-put k v (entry j w d) h = elim (Bool-cases (str_eq j k)) [
    | inl same ↦
        let other : str_eq j "components" ≡ false = rw ((eq_iff j k).0 same) h in rw (same, other)
    | inr apart ↦ rw (apart, components_types-put k v d h)
  ]

  components_types-put_components :
      (vs : Items) (d : Dict)
      → components_types repr (put "components" (arr vs) d) ≡ canonical_types repr vs
  unfolding components_types put
  components_types-put_components vs empty = refl
  components_types-put_components vs (entry j w d) = elim (Bool-cases (str_eq j "components")) [
    | inl same ↦ rw (same, same)
    | inr apart ↦ rw (apart, apart) (components_types-put_components vs d)
  ]

  type_text-put :
      (k : String) (v : Value) (d : Dict)
      → str_eq k "type" ≡ false
      → type_text repr (put k v d) ≡ type_text repr d
  unfolding type_text
  type_text-put k v d h = rw (find-put k "type" v d, h)

  canonical_type-filled :
      (d : Dict) (fallback : String)
      → canonical_type repr (filled d fallback) ≡ canonical_type repr d
  unfolding filled canonical_type
  canonical_type-filled d fallback = elim (Bool-cases (truthy (get "name" d))) [
    | inl given ↦ rw given
    | inr missing ↦ rw (
      missing,
      type_text-put "name" (str fallback) d refl,
      components_types-put "name" (str fallback) d refl,
    )
  ]

  type_text-filled :
      (d : Dict) (fallback : String) → type_text repr (filled d fallback) ≡ type_text repr d
  unfolding filled
  type_text-filled d fallback = elim (Bool-cases (truthy (get "name" d))) [
    | inl given ↦ rw given
    | inr missing ↦ rw missing (type_text-put "name" (str fallback) d refl)
  ]

  replaced-types :
      (d e : Dict) (xs : Items)
      → type_text repr e ≡ type_text repr d
      → canonical_types repr xs ≡ components_types repr d
      → canonical_type repr (put "components" (arr xs) e) ≡ canonical_type repr d
  unfolding canonical_type
  replaced-types d e xs same types = rw (
    type_text-put "components" (arr xs) e refl,
    same,
    components_types-put_components xs e,
    types,
  )

  with_components-types :
      (tuple : Bool) (d e first : Dict) (components : Result Items)
      → type_text repr e ≡ type_text repr d
      → canonical_type repr e ≡ canonical_type repr d
      → ((xs : Items) → components ≡ ok xs → canonical_types repr xs ≡ components_types repr d)
      → with_components tuple components e ≡ ok first
      → canonical_type repr first ≡ canonical_type repr d
  unfolding with_components
  with_components-types true d e first (ok xs) text whole same h =
      let made : put "components" (arr xs) e ≡ first = cc in
      rw (sym made) (replaced-types d e xs text (same xs refl))
  with_components-types true d e first (err x) text whole same h = cc
  with_components-types false d e first components text whole same h =
      let made : e ≡ first = cc in rw (sym made) whole

  -- One entry and the others, by what is known of the components and of the others.
  named_inputs-step :
      (prefix : String) (i : ℕ) (d : Dict) (vs vs' : Items)
      → ((xs : Items)
          → named_components repr d ≡ ok xs
          → canonical_types repr xs ≡ components_types repr d)
      → ((xs : Items)
          → named_inputs repr prefix (suc i) vs ≡ ok xs
          → canonical_types repr xs ≡ canonical_types repr vs)
      → named_inputs repr prefix i (cons (obj d) vs) ≡ ok vs'
      → canonical_types repr vs' ≡ canonical_types repr (cons (obj d) vs)
  unfolding named_inputs
  named_inputs-step prefix i d vs vs' inner rest h =
      let e = filled d (prefix ++ show i) in
      let (first, made, more) =
        ok-steps (with_components (is_tuple repr d) (named_components repr d) e)
          (λ first. named_inputs repr prefix (suc i) vs >>= λ others. ok (cons (obj first) others))
          h in
      let (others, followed, whole) =
        ok-steps (named_inputs repr prefix (suc i) vs) (λ others. ok (cons (obj first) others))
          more in
      let result : cons (obj first) others ≡ vs' = cc in
      let first_types =
        with_components-types (is_tuple repr d) d e first (named_components repr d)
          (type_text-filled d (prefix ++ show i)) (canonical_type-filled d (prefix ++ show i)) inner
          made in
      let other_types = rest others followed in
      rw (sym result) (
        canonical_types-cons repr first others
        ∙ (rw (first_types, other_types) refl ∙ sym (canonical_types-cons repr d vs)))

  mutual
    unfolding components_types named_components

    pub named_inputs-types :
        (prefix : String) (i : ℕ) (vs vs' : Items)
        → named_inputs repr prefix i vs ≡ ok vs'
        → canonical_types repr vs' ≡ canonical_types repr vs
    named_inputs-types prefix i nil vs' h = let made : nil ≡ vs' = cc in rw (sym made)
    named_inputs-types prefix i (cons (obj d) vs) vs' h =
        named_inputs-step prefix i d vs vs' (named_components-types d)
          (named_inputs-types prefix (suc i) vs) h
    named_inputs-types prefix i (cons null vs) vs' h = cc
    named_inputs-types prefix i (cons (bool b) vs) vs' h = cc
    named_inputs-types prefix i (cons (num n) vs) vs' h = cc
    named_inputs-types prefix i (cons (str s) vs) vs' h = cc
    named_inputs-types prefix i (cons (arr xs) vs) vs' h = cc

    named_components-types :
        (d : Dict) (xs : Items)
        → named_components repr d ≡ ok xs
        → canonical_types repr xs ≡ components_types repr d
    named_components-types empty xs h =
        let made : nil ≡ xs = cc in rw (sym made) (canonical_types-nil repr)
    named_components-types (entry k v d) xs h = elim (Bool-cases (str_eq k "components")) [
      | inl here ↦ rw here (named_listed-types v xs (rw here at h))
      | inr later ↦ rw later (named_components-types d xs (rw later at h))
    ]

    named_listed-types :
        (v : Value) (xs : Items)
        → named_listed repr v ≡ ok xs
        → canonical_types repr xs ≡ listed_types repr v
    named_listed-types (arr vs) xs h = named_inputs-types "c" 0 vs xs h
    named_listed-types null xs h = cc
    named_listed-types (bool b) xs h = cc
    named_listed-types (num n) xs h = cc
    named_listed-types (str s) xs h = cc
    named_listed-types (obj d) xs h = cc
