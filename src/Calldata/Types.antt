-- ===== src/Calldata/Types.antt =====
-- The types that a signature may name, as they are written without spaces; their parentheses match.
use Prim.Native.Char.{Char, code}
use Prim.Native.String.{◌++◌}
use almanak_keeperhub.Prelude.{
  String, ◌≡◌, refl, Bool, true, false, not, ◌&&◌, List, [], ◌∷◌, arith, ◌==◌,
}
use almanak_keeperhub.Python.Text.{is_text, is_space, starts_with, join_with}
use almanak_keeperhub.Calldata.Balanced.{
  Balanced, done, char, group, Balanced-inside, Balanced-append,
}
use almanak_keeperhub.Calldata.Inputs.{starts_name, continues_name}

-- The types of a signature: a word such as `uint256[]`, or a tuple with what stands behind it.
mutual
  pub data SolType : Type 0 where
    word : String → SolType
    tuple : SolTypes → String → SolType

  pub data SolTypes : Type 0 where
    end : SolTypes
    and : SolType → SolTypes → SolTypes

unfoldable mutual
  pub print : SolType → String
  print (word w) = w
  print (tuple ts suffix) = String.◌∷◌ "(" (join_with "," (print_all ts) ++ String.◌∷◌ ")" suffix)

  pub print_all : SolTypes → List String
  print_all end = []
  print_all (and t ts) = print t ∷ print_all ts

-- No parenthesis, comma or space.
abbrev pub is_plain : Char → Bool
is_plain c =
    not (code c == b'(') && not (code c == b')') && not (code c == b',') && not (is_space c)

abbrev pub all_chars : (Char → Bool) → String → Bool
all_chars p String.[] = true
all_chars p (String.◌∷◌ c s) = p c && all_chars p s

unfoldable mutual
  pub is_written : SolType → Bool
  is_written (word w) = all_chars is_plain w && is_text w && not (starts_with w "tuple")
  is_written (tuple ts suffix) = all_chars is_plain suffix && are_written ts

  pub are_written : SolTypes → Bool
  are_written end = true
  are_written (and t ts) = is_written t && are_written ts

-- A name as the pattern wants it.
abbrev pub is_name : String → Bool
is_name String.[] = false
is_name (String.◌∷◌ c s) = starts_name c && all_chars continues_name s

plain-Balanced : (s : String) → all_chars is_plain s ≡ true → Balanced false s
plain-Balanced String.[] h = done
plain-Balanced (String.◌∷◌ c s) h =
    char c (ground arith) (ground arith) (ground arith) (plain-Balanced s (ground arith))

mutual
  unfolding print is_written join_with

  pub print-Balanced : (t : SolType) → is_written t ≡ true → Balanced false (print t)
  print-Balanced (word w) h = plain-Balanced w (ground arith)
  print-Balanced (tuple ts suffix) h =
      group (print_all-Balanced ts (ground arith)) (plain-Balanced suffix (ground arith)) refl

  pub print_all-Balanced :
      (ts : SolTypes) → are_written ts ≡ true → Balanced true (join_with "," (print_all ts))
  print_all-Balanced end h = done
  print_all-Balanced (and t end) h = Balanced-inside (print-Balanced t (ground arith))
  print_all-Balanced (and t (and u ts)) h =
      Balanced-append (Balanced-inside (print-Balanced t (ground arith))) (
        Balanced-append (char "," refl refl refl done)
          (print_all-Balanced (and u ts) (ground arith)))
