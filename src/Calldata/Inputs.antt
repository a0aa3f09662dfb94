-- ===== src/Calldata/Inputs.antt =====
-- calldata.py: ABI inputs, `FunctionSig` and `_parse_signature`. An ABI input is a dict, and
-- `repr` prints the lists and dicts that `str` may meet.
use Prim.Native.Char.{Char, code}
use Prim.Native.String.{◌++◌}
use mathlib.Core.Option
use almanak_keeperhub.Prelude.{
  ℕ, zero, suc, ◌+◌, ◌-◌, String, Bool, str_eq, ◌&&◌, ◌||◌, Option, none, some, List, [], ◌∷◌, leb,
  ◌==◌, if◌then◌else◌,
}
use almanak_keeperhub.Python.Text.{
  skip_spaces, is_blank, starts_with, join, join_with, show, take, drop, length,
}
use almanak_keeperhub.Python.Json.{
  Value, Items, Dict, str, arr, obj, nil, cons, empty, entry, find, put, text_of,
}
use almanak_keeperhub.Errors.{
  Result, ok, err, value_error, type_error, key_error, out_of_fuel, ◌>>=◌,
}
use almanak_keeperhub.Calldata.Split.{split_top_level, matching_paren}

-- `FunctionSig`
pub record FunctionSig : Type 0 where
  pub name : String
  pub inputs : Items

unfoldable pub or_key_error : String → Option Value → Result Value
or_key_error k none = err (key_error k)
or_key_error k (some v) = ok v

-- `d[k]`
unfoldable pub item : String → Dict → Result Value
unfolding or_key_error
item k d = or_key_error k (find k d)

-- `str(entry["type"])`
unfoldable pub type_text : (Value → String) → Dict → Result String
unfolding item
type_text repr d = do typ ← item "type" d; ok (text_of repr typ)

-- `_canonical_type`, by the type and what its components give.
unfoldable pub canonical_of : Result (List String) → String → Result String
canonical_of components typ =
    if starts_with typ "tuple"
    then (do inner ← components; ok ("(" ++ join_with "," inner ++ ")" ++ drop 5 typ))
    else ok typ

unfoldable mutual
  unfolding type_text canonical_of

  -- `[_canonical_type(c) for c in ...]`
  pub canonical_types : (Value → String) → Items → Result (List String)
  canonical_types repr nil = ok []
  canonical_types repr (cons (obj d) vs) =
      let inner = components_types repr d in
      let rest = canonical_types repr vs in
      do typ ← type_text repr d; first ← canonical_of inner typ; others ← rest; ok (first ∷ others)
  canonical_types repr (cons v vs) = err (type_error "an ABI entry is no dict")

  -- The same of `entry.get("components", [])`.
  pub components_types : (Value → String) → Dict → Result (List String)
  components_types repr empty = ok []
  components_types repr (entry k v d) =
      let here = listed_types repr v in
      let later = components_types repr d in if str_eq k "components" then here else later

  pub listed_types : (Value → String) → Value → Result (List String)
  listed_types repr (arr vs) = canonical_types repr vs
  listed_types repr v = err (type_error "components are no list")

-- `_canonical_type`
unfoldable pub canonical_type : (Value → String) → Dict → Result String
unfolding type_text canonical_of
canonical_type repr d = do typ ← type_text repr d; canonical_of (components_types repr d) typ

-- `FunctionSig.signature`
unfoldable pub signature : (Value → String) → FunctionSig → Result String
signature repr sig = do
  types ← canonical_types repr sig.inputs
  ok (sig.name ++ "(" ++ join_with "," types ++ ")")

-- The entries of a list of types, named by a prefix and their index.
unfoldable pub number_inputs :
    (String → String → Result Dict) → String → ℕ → List String → Result Items
number_inputs to_input prefix i [] = ok nil
number_inputs to_input prefix i (t ∷ ts) = do
  d ← to_input t (prefix ++ show i)
  rest ← number_inputs to_input prefix (suc i) ts
  ok (cons (obj d) rest)

abbrev pub named_type : String → String → Dict
named_type name typ = entry "name" (str name) (entry "type" (str typ) empty)

-- The branch of a type in parentheses, with the recursive call as `to_input`.
unfoldable pub tuple_input : (String → String → Result Dict) → String → String → Result Dict
unfolding number_inputs
tuple_input to_input typ name = do
  close ← matching_paren typ
  components ← number_inputs to_input "c" 0 (split_top_level (take (close - 1) (drop 1 typ)))
  ok (put "components" (arr components) (named_type name ("tuple" ++ drop (close + 1) typ)))

-- `_type_to_abi_input`: a type in parentheses is longer than its components.
unfoldable pub type_to_abi_input : ℕ → String → String → Result Dict
unfolding tuple_input
type_to_abi_input zero typ name = err out_of_fuel
type_to_abi_input (suc fuel) typ name =
    let tuple = tuple_input (type_to_abi_input fuel) typ name in
    if starts_with typ "(" then tuple else ok (named_type name typ)

-- `[A-Za-z_$]` and `[A-Za-z0-9_$]`
abbrev pub starts_name : Char → Bool
starts_name c =
    leb b'A' (code c) && leb (code c) b'Z'
    || leb b'a' (code c) && leb (code c) b'z'
    || code c == b'_'
    || code c == b'$'

abbrev pub continues_name : Char → Bool
continues_name c = starts_name c || leb b'0' (code c) && leb (code c) b'9'

-- `(.*)\)\s*`, up to the end of the text: what stands before the last parenthesis.
unfoldable pub match_params : String → Option String
match_params String.[] = none
match_params (String.◌∷◌ c s) =
    let rest = Option.map (λ t. String.◌∷◌ c t) (match_params s) in
    if code c == b')' && is_blank s then some "" else if code c == 10 then none else rest

-- `[A-Za-z0-9_$]*\((.*)\)\s*`, after a part of the name.
unfoldable pub match_name : String → String → Option (String × String)
unfolding match_params
match_name name String.[] = none
match_name name (String.◌∷◌ c s) =
    let more = match_name (name ++ String.◌∷◌ c "") s in
    let params = Option.map (λ p. (name, p)) (match_params s) in
    if continues_name c then more else if code c == b'(' then params else none

-- The groups of the pattern's match.
unfoldable pub match_signature : String → Option (String × String)
unfolding match_name
match_signature String.[] = none
match_signature (String.◌∷◌ c s) = if starts_name c then match_name (String.◌∷◌ c "") s else none

-- The function of a match, or the ValueError.
unfoldable pub matched : String → Option (String × String) → Result FunctionSig
matched text none = err (value_error (join ("not a function signature: '" ∷ text ∷ "'" ∷ [])))
matched text (some (name, params)) = do
  inputs ← number_inputs (type_to_abi_input (suc (length params))) "arg" 0 (split_top_level params)
  ok (record { name = name; inputs = inputs })

-- `_parse_signature`
unfoldable pub parse_signature : String → Result FunctionSig
unfolding matched
parse_signature text = matched text (match_signature (skip_spaces text))
