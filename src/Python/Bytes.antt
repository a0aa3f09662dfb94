-- ===== src/Python/Bytes.antt =====
-- Bytes as numbers below 256, with `bytes.fromhex` and `b.hex()`.
use Prim.Native.Char.{Char, code}
use almanak_keeperhub.Prelude.{
  ℕ, ◌+◌, ◌-◌, ◌*◌, ◌/◌, ◌%◌, String, ◌≡◌, refl, Bool, ◌&&◌, Option, none, some, List, [], ◌∷◌, ltb,
  leb, ◌==◌, zero, suc, if◌then◌else◌,
}
use almanak_keeperhub.Python.Text.{char_of, is_space}

hex_value : Char → Option ℕ
hex_value c =
    if leb b'0' (code c) && leb (code c) b'9'
    then some (code c - b'0')
    else if leb b'a' (code c) && leb (code c) b'f'
    then some (code c - 87)
    else if leb b'A' (code c) && leb (code c) b'F'
    then some (code c - 55)
    else none

-- One byte before the bytes of what follows.
with_digits : Option ℕ → Option ℕ → Option (List ℕ) → Option (List ℕ)
with_digits (some a) (some b) (some bs) = some ((16 * a + b) ∷ bs)
with_digits a b bs = none

-- `bytes.fromhex(s)`; none is the ValueError. Spaces may stand between bytes.
unfoldable pub from_hex : String → Option (List ℕ)
unfolding hex_value with_digits
from_hex String.[] = some []
from_hex (String.◌∷◌ c String.[]) = if is_space c then some [] else none
from_hex (String.◌∷◌ c (String.◌∷◌ d s)) =
    let skipped = from_hex (String.◌∷◌ d s) in
    let byte = with_digits (hex_value c) (hex_value d) (from_hex s) in
    if is_space c then skipped else byte

hex_digit : ℕ → Char
unfolding char_of
hex_digit n = if ltb n 10 then char_of (48 + n) else char_of (87 + n)

-- `b.hex()`
unfoldable pub to_hex : List ℕ → String
unfolding hex_digit
to_hex [] = ""
to_hex (b ∷ bs) = String.◌∷◌ (hex_digit (b / 16 % 16)) (String.◌∷◌ (hex_digit (b % 16)) (to_hex bs))

-- `b[:n]` and `b[n:]`
abbrev pub take : ℕ → List ℕ → List ℕ
take zero bs = []
take (suc n) [] = []
take (suc n) (b ∷ bs) = b ∷ take n bs

abbrev pub drop : ℕ → List ℕ → List ℕ
drop zero bs = bs
drop (suc n) [] = []
drop (suc n) (b ∷ bs) = drop n bs

unfoldable pub eqb : List ℕ → List ℕ → Bool
eqb [] [] = Bool.true
eqb (a ∷ xs) (b ∷ ys) = a == b && eqb xs ys
eqb xs ys = Bool.false

transfer_selector : to_hex (169 ∷ 5 ∷ 156 ∷ 187 ∷ []) ≡ "a9059cbb"
unfolding to_hex char_of
transfer_selector = refl

from_hex_spaced : from_hex "A9 05" ≡ some (169 ∷ 5 ∷ [])
unfolding from_hex is_space
from_hex_spaced = refl
