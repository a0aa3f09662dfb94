-- ===== src/Python/Dumps.antt =====
-- `json.dumps(v)` with its default separators and ASCII escapes.
use Prim.Native.Char.{Char, code}
use Prim.Native.String.{◌++◌}
use almanak_keeperhub.Prelude.{
  ℕ, ◌+◌, ◌-◌, ◌/◌, ◌%◌, String, ◌≡◌, refl, true, false, ◌&&◌, [], ◌∷◌, ltb, leb, ◌==◌,
  if◌then◌else◌,
}
use almanak_keeperhub.Prelude.Int.{pos}
use almanak_keeperhub.Python.Text.{char_of, join, show_ℤ}
use almanak_keeperhub.Python.Json.{
  Value, Items, Dict, null, bool, num, str, arr, obj, nil, cons, empty, entry,
}

hex_digit : ℕ → String
unfolding char_of
hex_digit n = String.◌∷◌ (char_of (if ltb n 10 then 48 + n else 87 + n)) ""

-- `\u` and four hexadecimal digits.
unicode_escape : ℕ → String
unfolding hex_digit
unicode_escape n = join (
    "\\u"
    ∷ hex_digit (n / 4096 % 16)
    ∷ hex_digit (n / 256 % 16)
    ∷ hex_digit (n / 16 % 16)
    ∷ hex_digit (n % 16)
    ∷ [])

escape_char : Char → String
unfolding unicode_escape
escape_char c =
    let n = code c in
    if n == 34
    then "\\\""
    else if n == 92
    then "\\\\"
    else if n == 10
    then "\\n"
    else if n == 13
    then "\\r"
    else if n == 9
    then "\\t"
    else if n == 8
    then "\\b"
    else if n == 12
    then "\\f"
    else if leb 32 n && leb n 126
    then String.◌∷◌ c ""
    else if ltb n 65536
    then unicode_escape n
    else unicode_escape (55296 + (n - 65536) / 1024) ++ unicode_escape (56320 + (n - 65536) % 1024)

escape : String → String
unfolding escape_char
escape String.[] = ""
escape (String.◌∷◌ c s) = escape_char c ++ escape s

unfoldable mutual
  unfolding escape

  pub dumps : Value → String
  dumps null = "null"
  dumps (bool true) = "true"
  dumps (bool false) = "false"
  dumps (num n) = show_ℤ n
  dumps (str s) = join ("\"" ∷ escape s ∷ "\"" ∷ [])
  dumps (arr nil) = "[]"
  dumps (arr (cons v vs)) = join ("[" ∷ dumps v ∷ dumps_items vs ∷ [])
  dumps (obj empty) = "{}"
  dumps (obj (entry k v d)) = join ("{\"" ∷ escape k ∷ "\": " ∷ dumps v ∷ dumps_fields d ∷ [])

  dumps_items : Items → String
  dumps_items nil = "]"
  dumps_items (cons v vs) = join (", " ∷ dumps v ∷ dumps_items vs ∷ [])

  dumps_fields : Dict → String
  dumps_fields empty = "}"
  dumps_fields (entry k v d) = join (", \"" ∷ escape k ∷ "\": " ∷ dumps v ∷ dumps_fields d ∷ [])

dumps_call :
    dumps
      (arr (cons (str "5\"") (cons (bool true) (cons (obj (entry "a" (num (pos 7)) empty)) nil))))
    ≡ "[\"5\\\"\", true, {\"a\": 7}]"
unfolding dumps show_ℤ
dumps_call = refl
