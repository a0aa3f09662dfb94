-- ===== src/Client/Ether.antt =====
-- The amount that a call carries is exact: the decimal string of ether reads back as the wei.
use Prim.Native.Char.{code}
use Prim.Native.String.{◌++◌}
use text.Mathlib.TextLemmas.{cons-append, nil-append}
use native.Mathlib.Nat.{div-add-mod', div-div-eq-div-mul, pow-suc}
use almanak_keeperhub.Prelude.{
  ℕ, zero, suc, ◌+◌, ◌-◌, ◌*◌, ◌/◌, ◌%◌, ◌^◌, ◌<◌, String, ◌≡◌, refl, ap, ◌∙◌, inl, inr, Bool, true,
  false, not, ◌&&◌, ◌||◌, ◌==◌, arith, ltb, if◌then◌else◌, Bool-cases,
}
use almanak_keeperhub.Python.Text.{char_of, digit, is_text, show, show_from}
use almanak_keeperhub.Client.Calls.{padded, rstrip_zeros, wei_to_ether_string}

-- The digits behind the point, the first of which counts 10 ^ k.
unfoldable pub fraction : ℕ → String → ℕ
fraction k String.[] = 0
fraction zero (String.◌∷◌ c s) = 0
fraction (suc k) (String.◌∷◌ c s) = digit c * 10 ^ k + fraction k s

-- The wei that a decimal string of ether stands for, after the digits read so far.
unfoldable pub wei_of : ℕ → String → ℕ
unfolding fraction
wei_of n String.[] = n * 10 ^ 18
wei_of n (String.◌∷◌ c s) =
    let rest = wei_of (n * 10 + digit c) s in
    if code c == b'.' then n * 10 ^ 18 + fraction 18 s else rest

code-char_of : (n : ℕ) → n < 128 → code (char_of n) ≡ n
unfolding char_of
code-char_of n h = ground arith

-- One more digit in front of the last digits of n.
leading_digit : (n p : ℕ) → n / p % 10 * p + n % p ≡ n % (p * 10)
leading_digit n p = omega (
  arith,
  div-add-mod' n p,
  div-add-mod' n (p * 10),
  div-div-eq-div-mul n p 10,
  ap (λ (t : ℕ). t * (p * 10)) (div-div-eq-div-mul n p 10),
  ap (λ (t : ℕ). t * p) (div-add-mod' (n / p) 10),
)

padded-fraction : (k n : ℕ) → fraction k (padded k n) ≡ n % 10 ^ k
unfolding fraction padded
padded-fraction zero n = omega arith
padded-fraction (suc k) n =
    rw (code-char_of (48 + n / 10 ^ k % 10) (omega arith), padded-fraction k n, pow-suc)
      (let back : 48 + n / 10 ^ k % 10 - 48 ≡ n / 10 ^ k % 10 = omega arith in
        rw back (leading_digit n (10 ^ k)))

wei_of-digit :
    (n d : ℕ) (out : String)
    → d < 10
    → wei_of n (String.◌∷◌ (char_of (48 + d)) out) ≡ wei_of (n * 10 + d) out
unfolding wei_of
wei_of-digit n d out h =
    let back : digit (char_of (48 + d)) ≡ d =
      rw (code-char_of (48 + d) (omega arith)) (omega arith) in
    let no_point : (code (char_of (48 + d)) == 46) ≡ false =
      rw (code-char_of (48 + d) (omega arith)) (ground arith) in
    rw no_point (rw back)

show_from-wei : (f n : ℕ) (out : String) → n < f → wei_of 0 (show_from f n out) ≡ wei_of n out
unfolding show_from
show_from-wei zero n out h = absurd (omega arith)
show_from-wei (suc f) n out h = elim (Bool-cases (ltb n 10)) [
  | inl small ↦
      rw small (wei_of-digit 0 (n % 10) out (omega arith) ∙ ap (λ t. wei_of t out) (ground arith))
  | inr large ↦ rw large (
      show_from-wei f (n / 10) _ (ground arith)
      ∙ (wei_of-digit (n / 10) (n % 10) out (omega arith) ∙ ap (λ t. wei_of t out) (omega arith)))
]

fraction_zero : (s : String) → fraction 0 s ≡ 0
unfolding fraction
fraction_zero String.[] = refl
fraction_zero (String.◌∷◌ c s) = refl

fraction_empty : (k : ℕ) (s : String) → is_text s ≡ false → fraction k s ≡ 0
unfolding fraction
fraction_empty k String.[] h = refl
fraction_empty k (String.◌∷◌ c s) h = cc

-- A dropped zero counts nothing.
rstrip_zeros-fraction : (k : ℕ) (s : String) → fraction k (rstrip_zeros s) ≡ fraction k s
unfolding rstrip_zeros fraction
rstrip_zeros-fraction k String.[] = refl
rstrip_zeros-fraction zero (String.◌∷◌ c s) = rw (fraction_zero, fraction_zero)
rstrip_zeros-fraction (suc k) (String.◌∷◌ c s) =
    elim (Bool-cases (code c == b'0' && not (is_text (rstrip_zeros s)))) [
      | inl dropped ↦
          rw dropped (ground (arith, fraction_empty k (rstrip_zeros s), rstrip_zeros-fraction k s))
      | inr kept ↦ rw kept (ap (λ t. digit c * 10 ^ k + t) (rstrip_zeros-fraction k s))
    ]

abbrev has_point : String → Bool
has_point String.[] = false
has_point (String.◌∷◌ c s) = code c == b'.' || has_point s

rstrip_zeros-is_text : (s : String) → has_point s ≡ true → is_text (rstrip_zeros s) ≡ true
unfolding rstrip_zeros
rstrip_zeros-is_text String.[] h = cc
rstrip_zeros-is_text (String.◌∷◌ c s) h = ground (arith, rstrip_zeros-is_text s)

rstrip_zeros-wei :
    (n : ℕ) (s : String) → has_point s ≡ true → wei_of n (rstrip_zeros s) ≡ wei_of n s
unfolding rstrip_zeros wei_of
rstrip_zeros-wei n String.[] h = cc
rstrip_zeros-wei n (String.◌∷◌ c s) h = ground (
  arith,
  rstrip_zeros-is_text s,
  rstrip_zeros-fraction 18 s,
  rstrip_zeros-wei (n * 10 + digit c) s,
)

show_from-has_point :
    (f n : ℕ) (out : String) → has_point out ≡ true → has_point (show_from f n out) ≡ true
unfolding show_from
show_from-has_point zero n out h = h
show_from-has_point (suc f) n out h =
    let longer : has_point (String.◌∷◌ (char_of (48 + n % 10)) out) ≡ true = ground arith in
    elim (Bool-cases (ltb n 10)) [
      | inl small ↦ rw small longer
      | inr large ↦ rw large (show_from-has_point f (n / 10) _ longer)
    ]

show_from-append : (f n : ℕ) (out s : String) → show_from f n out ++ s ≡ show_from f n (out ++ s)
unfolding show_from
show_from-append zero n out s = refl
show_from-append (suc f) n out s = elim (Bool-cases (ltb n 10)) [
  | inl small ↦ rw small (cons-append _ out s)
  | inr large ↦
      rw large (show_from-append f (n / 10) _ s ∙ ap (show_from f (n / 10)) (cons-append _ out s))
]

-- The whole part, a point and a fraction, less its trailing zeros.
joined :
    (f n : ℕ) (t : String)
    → n < f
    → wei_of 0 (rstrip_zeros (show_from f n "" ++ ("." ++ t))) ≡ n * 10 ^ 18 + fraction 18 t
joined f n t h =
    let pointed : has_point ("." ++ t) ≡ true = rw cons-append in
    rw (show_from-append f n "" ("." ++ t), nil-append)
      (rstrip_zeros-wei 0 _ (show_from-has_point f n ("." ++ t) pointed)
        ∙ (show_from-wei f n ("." ++ t) h ∙ at_point))
  where
    at_point : wei_of n ("." ++ t) ≡ n * 10 ^ 18 + fraction 18 t
    at_point = unfold wei_of in rw (cons-append, nil-append)

-- The ether string of an amount, read as a decimal fraction of 10 ^ 18 wei, is the amount: no digit
-- is lost or rounded, whatever the amount.
pub wei_to_ether_string-exact : (w : ℕ) → wei_of 0 (wei_to_ether_string w) ≡ w
unfolding wei_to_ether_string show
wei_to_ether_string-exact w = elim (Bool-cases (w % 10 ^ 18 == 0)) [
  | inl whole ↦ rw whole (
      show_from-wei (suc (w / 10 ^ 18)) (w / 10 ^ 18) "" (omega arith)
      ∙ nothing_left (w / 10 ^ 18) whole)
  | inr rest ↦ rw rest (
      joined (suc (w / 10 ^ 18)) (w / 10 ^ 18) (padded 18 (w % 10 ^ 18)) (omega arith)
      ∙ rw padded-fraction (omega arith))
]
  where
    nothing_left : (n : ℕ) → (w % 10 ^ 18 == 0) ≡ true → wei_of (w / 10 ^ 18) "" ≡ w
    nothing_left n whole = unfold wei_of in ground arith
