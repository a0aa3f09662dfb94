-- ===== src/Python/Text.antt =====
-- Text: ASCII case, decimal printing and reading. Case mapping is that of ASCII letters: the
-- program lowers addresses, hashes and symbols.
use Prim.Native.Nat.{compare, Ordering}
use Prim.Native.Char.{Char, char, code, nul, IsScalar}
use Prim.Native.String.{◌++◌}
use mathlib.Core.Logic.{dite}
use native.Mathlib.Decide.{dec_lt}
use mathlib.Core.Option
use almanak_keeperhub.Prelude.{
  ℕ, zero, suc, ◌+◌, ◌-◌, ◌*◌, ◌/◌, ◌%◌, ◌<◌, String, ◌≡◌, refl, Bool, true, false, ◌&&◌, ◌||◌,
  Option, none, some, List, [], ◌∷◌, arith, ltb, leb, ◌==◌, if◌then◌else◌, not, str_eq,
}
use almanak_keeperhub.Prelude.Int.{ℤ, pos, negsuc, neg}

pub ascii-IsScalar : (n : ℕ) → n < 128 → IsScalar n
ascii-IsScalar n h = let e : compare n 55296 ≡ Ordering.lt = ground arith in rw e tt

unfoldable pub char_of : ℕ → Char
unfolding dec_lt ascii-IsScalar
char_of n = dite (dec_lt n 128) (λ h. char n (ascii-IsScalar n h)) (λ _. nul)

lower_char : Char → Char
unfolding char_of
lower_char c = if leb b'A' (code c) && leb (code c) b'Z' then char_of (code c + 32) else c

upper_char : Char → Char
unfolding char_of
upper_char c = if leb b'a' (code c) && leb (code c) b'z' then char_of (code c - 32) else c

-- `s.lower()`
unfoldable pub lower : String → String
unfolding lower_char
lower String.[] = ""
lower (String.◌∷◌ c s) = String.◌∷◌ (lower_char c) (lower s)

-- `s.upper()`
unfoldable pub upper : String → String
unfolding upper_char
upper String.[] = ""
upper (String.◌∷◌ c s) = String.◌∷◌ (upper_char c) (upper s)

-- The first n characters, `s[:n]`, and what follows them, `s[n:]`.
unfoldable pub take : ℕ → String → String
take zero s = ""
take (suc n) String.[] = ""
take (suc n) (String.◌∷◌ c s) = String.◌∷◌ c (take n s)

unfoldable pub drop : ℕ → String → String
drop zero s = s
drop (suc n) String.[] = ""
drop (suc n) (String.◌∷◌ c s) = drop n s

unfoldable pub length : String → ℕ
length String.[] = 0
length (String.◌∷◌ c s) = suc (length s)

-- `bool(s)`
abbrev pub is_text : String → Bool
is_text String.[] = false
is_text (String.◌∷◌ c s) = true

abbrev pub is_digit : Char → Bool
is_digit c = leb b'0' (code c) && leb (code c) b'9'

abbrev pub digit : Char → ℕ
digit c = code c - b'0'

-- Each round divides by ten; there are at most n + 1 rounds.
unfoldable pub show_from : ℕ → ℕ → String → String
unfolding char_of
show_from zero n out = out
show_from (suc f) n out =
    let out' = String.◌∷◌ (char_of (b'0' + n % 10)) out in
    let rest = show_from f (n / 10) out' in if ltb n 10 then out' else rest

-- `str(n)`
unfoldable pub show : ℕ → String
unfolding show_from
show n = show_from (suc n) n ""

unfoldable pub show_ℤ : ℤ → String
unfolding show
show_ℤ (pos n) = show n
show_ℤ (negsuc n) = "-" ++ show (suc n)

unfoldable pub is_space : Char → Bool
is_space c = code c == 32 || (leb 9 (code c) && leb (code c) 13)

only_spaces : String → Bool
unfolding is_space
only_spaces String.[] = true
only_spaces (String.◌∷◌ c s) = is_space c && only_spaces s

-- Digits with single underscores between them and spaces behind; the flag says that a digit
-- must come next.
read_digits : Bool → ℕ → String → Option ℕ
unfolding is_space only_spaces
read_digits true n String.[] = none
read_digits false n String.[] = some n
read_digits need n (String.◌∷◌ c s) =
    let more = read_digits false (n * 10 + digit c) s in
    let skip = read_digits true n s in
    if is_digit c
    then more
    else if need
    then none
    else if code c == b'_'
    then skip
    else if is_space c && only_spaces s
    then some n
    else none

signed : String → Option ℤ
unfolding read_digits
signed String.[] = none
signed (String.◌∷◌ c s) =
    if code c == b'-'
    then Option.map (λ n. neg (pos n)) (read_digits true 0 s)
    else Option.map pos
        (if code c == b'+' then read_digits true 0 s else read_digits true 0 (String.◌∷◌ c s))

unfoldable pub skip_spaces : String → String
unfolding is_space
skip_spaces String.[] = ""
skip_spaces (String.◌∷◌ c s) =
    let rest = skip_spaces s in if is_space c then rest else String.◌∷◌ c s

-- `int(s)`; none is the ValueError.
unfoldable pub int_of : String → Option ℤ
unfolding signed skip_spaces
int_of s = signed (skip_spaces s)

-- `s.rstrip()` and `s.strip()`
unfoldable pub rstrip : String → String
unfolding is_space
rstrip String.[] = ""
rstrip (String.◌∷◌ c s) =
    let rest = rstrip s in if is_space c && not (is_text rest) then "" else String.◌∷◌ c rest

unfoldable pub strip : String → String
unfolding skip_spaces rstrip
strip s = rstrip (skip_spaces s)

-- `s.startswith(t)` and `s.endswith(t)`
unfoldable pub starts_with : String → String → Bool
starts_with s String.[] = true
starts_with String.[] (String.◌∷◌ c t) = false
starts_with (String.◌∷◌ d s) (String.◌∷◌ c t) = code d == code c && starts_with s t

unfoldable pub ends_with : String → String → Bool
ends_with String.[] t = str_eq "" t
ends_with (String.◌∷◌ c s) t = str_eq (String.◌∷◌ c s) t || ends_with s t

-- `sep.join(parts)`
unfoldable pub join_with : String → List String → String
join_with sep [] = ""
join_with sep (p ∷ []) = p
join_with sep (p ∷ q ∷ parts) = p ++ sep ++ join_with sep (q ∷ parts)

-- `s.strip()` is empty.
unfoldable pub is_blank : String → Bool
unfolding only_spaces
is_blank s = only_spaces s

int_of_padded : int_of " -1_024 " ≡ some (negsuc 1023)
unfolding int_of
int_of_padded = refl

int_of_words : int_of "12s" ≡ none
unfolding int_of
int_of_words = refl

show_84532 : show 84532 ≡ "84532"
unfolding show
show_84532 = refl

lower_hash : lower "0xAbC" ≡ "0xabc"
unfolding lower
lower_hash = refl

-- An f-string: its parts, joined.
abbrev pub join : List String → String
join [] = ""
join (s ∷ ss) = s ++ join ss
