-- ===== src/Calldata/Order.antt =====
-- calldata.py: the order in which a bare signature and a named ABI reach the index does not matter.
use almanak_keeperhub.Prelude.{
  String, ◌≡◌, refl, sym, ◌∙◌, ap, Bool, true, false, not, ◌&&◌, Option, none, some, [], ◌∷◌, arith,
  str_eq, eq_iff, eq_refl, if◌then◌else◌,
}
use almanak_keeperhub.Python.Json.{Value}
use almanak_keeperhub.Errors.{Result, ok, err, ◌>>=◌, ok-steps}
use almanak_keeperhub.Calldata.Inputs.{FunctionSig}
use almanak_keeperhub.Calldata.Index.{
  SelectorIndex, find_sig, put_sig, is_bare, replaces, selector, add,
}

find_sig-put_sig :
    (k j : String) (sig : FunctionSig) (index : SelectorIndex)
    → find_sig j (put_sig k sig index) ≡ (if str_eq k j then some sig else find_sig j index)
unfolding find_sig put_sig
find_sig-put_sig k j sig [] = refl
find_sig-put_sig k j sig ((i, other) ∷ index) =
    ground (arith, eq_iff k j, eq_iff i k, eq_iff i j, find_sig-put_sig k j sig index)

-- What is found after an addition.
abbrev after : String → FunctionSig → Bool → String → Option FunctionSig → Option FunctionSig
after k sig wins j found = if wins && str_eq k j then some sig else found

chosen-finds :
    (k j : String) (sig : FunctionSig) (index index' : SelectorIndex) (wins : Bool)
    → ok (if wins then put_sig k sig index else index) ≡ ok index'
    → find_sig j index' ≡ after k sig wins j (find_sig j index)
chosen-finds k j sig index index' true e =
    let this : index' ≡ put_sig k sig index = ground (arith, e) in
    rw this (find_sig-put_sig k j sig index)
chosen-finds k j sig index index' false e =
    let this : index' ≡ index = ground (arith, e) in rw this refl

module _ (sig x : FunctionSig) (w : Bool) where
  bare-loses : is_bare sig ≡ ok true → replaces sig (some x) ≡ ok w → w ≡ false
  unfolding replaces
  bare-loses b r = lost (is_bare x) r
    where
      lost :
          (bare : Result Bool)
          → (bare >>= λ bare. if bare then (is_bare sig >>= λ b. ok (not b)) else ok false) ≡ ok w
          → w ≡ false
      lost (ok true) r = ground (arith, r, b)
      lost (ok false) r = ground (arith, r)
      lost (err e) r = absurd (ground (arith, r))

  named-wins :
      is_bare sig ≡ ok false → is_bare x ≡ ok true → replaces sig (some x) ≡ ok w → w ≡ true
  unfolding replaces
  named-wins n b r = ground (arith, r, n, b)

  named-stays : is_bare x ≡ ok false → replaces sig (some x) ≡ ok w → w ≡ false
  unfolding replaces
  named-stays n r = ground (arith, r, n)

-- Of a named and a bare function only the named one is found, whichever comes first.
same-choice :
    (k j : String) (bare named : FunctionSig) (here at_j : Option FunctionSig) (w1 w2 w3 w4 : Bool)
    → is_bare bare ≡ ok true
    → is_bare named ≡ ok false
    → replaces bare here ≡ ok w1
    → replaces named (after k bare w1 k here) ≡ ok w2
    → replaces named here ≡ ok w3
    → replaces bare (after k named w3 k here) ≡ ok w4
    → after k named w2 j (after k bare w1 j at_j) ≡ after k bare w4 j (after k named w3 j at_j)
same-choice k j bare named none at_j true w2 true w4 b n r1 r2 r3 r4 =
    let own : str_eq k k ≡ true = eq_refl k in
    let second : w2 ≡ true = named-wins named bare w2 n b (rw own at r2) in
    let fourth : w4 ≡ false = named-stays bare named w4 n (rw own at r4) in
    rw second (rw fourth (ground arith))
same-choice k j bare named none at_j false w2 w3 w4 b n r1 r2 r3 r4 =
    absurd (unfold replaces in ground (arith, r1))
same-choice k j bare named none at_j true w2 false w4 b n r1 r2 r3 r4 =
    absurd (unfold replaces in ground (arith, r3))
same-choice k j bare named (some here) at_j true w2 w3 w4 b n r1 r2 r3 r4 =
    absurd (ground (arith, bare-loses bare here true b r1))
same-choice k j bare named (some here) at_j false w2 w3 w4 b n r1 r2 r3 r4 =
    let same : w2 ≡ w3 = ground (arith, r2, r3) in
    let fourth : w4 ≡ false = last w3 r4 in rw same (rw fourth refl)
  where
    last : (w : Bool) → replaces bare (after k named w k (some here)) ≡ ok w4 → w4 ≡ false
    last false r = bare-loses bare here w4 b r
    last true r =
        let own : str_eq k k ≡ true = eq_refl k in bare-loses bare named w4 b (rw own at r)

-- What is found at the selector: the named function, unless a named one was there before.
abbrev pub IsNamedFirst : FunctionSig → Option FunctionSig → Option FunctionSig → Type 0
IsNamedFirst named none found = found ≡ some named
IsNamedFirst named (some x) found =
    (is_bare x ≡ ok true → found ≡ some named) × (is_bare x ≡ ok false → found ≡ some x)

first_found :
    (k : String) (bare named : FunctionSig) (here : Option FunctionSig) (w1 w2 : Bool)
    → is_bare bare ≡ ok true
    → is_bare named ≡ ok false
    → replaces bare here ≡ ok w1
    → replaces named (after k bare w1 k here) ≡ ok w2
    → IsNamedFirst named here (after k named w2 k (after k bare w1 k here))
first_found k bare named none true w2 b n r1 r2 =
    let own : str_eq k k ≡ true = eq_refl k in
    let wins : w2 ≡ true = named-wins named bare w2 n b (rw own at r2) in rw wins (rw own refl)
first_found k bare named none false w2 b n r1 r2 = absurd (unfold replaces in ground (arith, r1))
first_found k bare named (some x) true w2 b n r1 r2 =
    absurd (ground (arith, bare-loses bare x true b r1))
first_found k bare named (some x) false w2 b n r1 r2 =
    let own : str_eq k k ≡ true = eq_refl k in
    (
      (λ was_bare. rw (named-wins named x w2 n was_bare r2) (rw own refl)),
      (λ was_named. rw (named-stays named x w2 was_named r2) refl),
    )

module _ (repr : Value → String) (selector_of : String → String) where
  add-finds :
      (k : String) (sig : FunctionSig) (index index' : SelectorIndex)
      → selector repr selector_of sig ≡ ok k
      → add repr selector_of sig index ≡ ok index'
      → (wins : Bool) × (replaces sig (find_sig k index) ≡ ok wins)
        × ((j : String) → find_sig j index' ≡ after k sig wins j (find_sig j index))
  unfolding add
  add-finds k sig index index' known added =
      let (k', named, rest) = ok-steps (selector repr selector_of sig) _ added in
      let same : k' ≡ k = ground (arith, named, known) in
      let (wins, chosen, last) = ok-steps (replaces sig (find_sig k' index)) _ rest in
      (
        wins,
        (rw (sym same) chosen),
        λ j. rw (sym same) (chosen-finds k' j sig index index' wins last),
      )

  -- A bare signature and a named ABI of one selector give the same index whichever is added first,
  -- in what it finds; and at the selector it finds the named one, unless a named one was there
  -- before, which stays.
  pub add-add :
      (k j : String) (bare named : FunctionSig) (index bare_first named_first : SelectorIndex)
      → selector repr selector_of bare ≡ ok k
      → selector repr selector_of named ≡ ok k
      → is_bare bare ≡ ok true
      → is_bare named ≡ ok false
      → (add repr selector_of bare index >>= add repr selector_of named) ≡ ok bare_first
      → (add repr selector_of named index >>= add repr selector_of bare) ≡ ok named_first
      → (find_sig j bare_first ≡ find_sig j named_first)
        × IsNamedFirst named (find_sig k index) (find_sig k bare_first)
  add-add k j bare named index bare_first named_first kb kn b n one other =
      let (i1, a1, a2) = ok-steps (add repr selector_of bare index) _ one in
      let (i3, a3, a4) = ok-steps (add repr selector_of named index) _ other in
      let (w1, r1, f1) = add-finds k bare index i1 kb a1 in
      let (w2, r2, f2) = add-finds k named i1 bare_first kn a2 in
      let (w3, r3, f3) = add-finds k named index i3 kn a3 in
      let (w4, r4, f4) = add-finds k bare i3 named_first kb a4 in
      (
        f2 j
            ∙ (ap (after k named w2 j) (f1 j)
                ∙ (same-choice k j bare named (find_sig k index) (find_sig j index) w1 w2 w3 w4 b n
                      r1 (rw (f1 k) at r2) r3 (rw (f3 k) at r4)
                    ∙ (sym (ap (after k bare w4 j) (f3 j)) ∙ sym (f4 j)))),
        rw (f2 k) (
            rw (f1 k) (first_found k bare named (find_sig k index) w1 w2 b n r1 (rw (f1 k) at r2))),
      )
