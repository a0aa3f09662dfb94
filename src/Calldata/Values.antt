-- ===== src/Calldata/Values.antt =====
-- calldata.py: `_named_input` and `_json_value`, which spell a decoded value as KeeperHub reads it.
use Prim.Native.Char.{code}
use Prim.Native.String.{◌++◌}
use almanak_keeperhub.Prelude.{
  ℕ, suc, String, Bool, true, false, ◌||◌, not, Option, none, some, List, ◌==◌, str_eq, is_empty,
  if◌then◌else◌,
}
use almanak_keeperhub.Prelude.Int.{ℤ}
use almanak_keeperhub.Python.Text.{is_text, starts_with, ends_with, show, show_ℤ, int_of}
use almanak_keeperhub.Python.Bytes.{to_hex}
use almanak_keeperhub.Python.Json.{
  Value, Items, Dict, bool, num, str, arr, obj, nil, cons, empty, entry, put, truthy, get,
  get_default, text_of,
}
use almanak_keeperhub.Errors.{Result, ok, err, value_error, type_error, ◌>>=◌, ◌>>◌}
use almanak_keeperhub.Calldata.Inputs.{item, type_text}

-- What `eth_abi.decode` gives for a type: a sequence for each array and each tuple.
mutual
  pub data AbiValue : Type 0 where
    int : ℤ → AbiValue
    boolean : Bool → AbiValue
    bytes : List ℕ → AbiValue
    text : String → AbiValue
    seq : AbiValues → AbiValue

  pub data AbiValues : Type 0 where
    no_values : AbiValues
    value : AbiValue → AbiValues → AbiValues

-- `if not named.get("name"): named["name"] = fallback`
unfoldable pub filled : Dict → String → Dict
filled d fallback = if truthy (get "name" d) then d else put "name" (str fallback) d

-- `str(named.get("type", "")).startswith("tuple")`
unfoldable pub is_tuple : (Value → String) → Dict → Bool
is_tuple repr d = starts_with (text_of repr (get_default "type" (str "") d)) "tuple"

-- `named["components"] = ...`, if the type is a tuple.
unfoldable pub with_components : Bool → Result Items → Dict → Result Dict
with_components tuple components d =
    if tuple then (do named ← components; ok (put "components" (arr named) d)) else ok d

unfoldable mutual
  unfolding filled is_tuple with_components

  -- `[_named_input(component, f"c{i}") ...]` from an index on, with the prefix of the names.
  pub named_inputs : (Value → String) → String → ℕ → Items → Result Items
  named_inputs repr prefix i nil = ok nil
  named_inputs repr prefix i (cons (obj d) vs) =
      let inner = named_components repr d in
      let rest = named_inputs repr prefix (suc i) vs in
      with_components (is_tuple repr d) inner (filled d (prefix ++ show i)) >>= λ first.
      rest >>= λ others. ok (cons (obj first) others)
  named_inputs repr prefix i (cons v vs) = err (type_error "an ABI entry is no dict")

  -- The same of `named.get("components", [])`.
  pub named_components : (Value → String) → Dict → Result Items
  named_components repr empty = ok nil
  named_components repr (entry k v d) =
      let here = named_listed repr v in
      let later = named_components repr d in if str_eq k "components" then here else later

  pub named_listed : (Value → String) → Value → Result Items
  named_listed repr (arr vs) = named_inputs repr "c" 0 vs
  named_listed repr v = err (type_error "components are no list")

-- `_named_input`
unfoldable pub named_input : (Value → String) → Dict → String → Result Dict
named_input repr d fallback =
    with_components (is_tuple repr d) (named_components repr d) (filled d fallback)

-- `typ[: typ.rindex("[")]`; none is the ValueError.
unfoldable pub before_bracket : String → Option String
before_bracket String.[] = none
before_bracket (String.◌∷◌ c s) =
    let last = if code c == b'[' then some "" else none in
    elim (before_bracket s) [ some t ↦ some (String.◌∷◌ c t) | none ↦ last ]

-- `{**spec, "type": typ[: typ.rindex("[")]}`
unfoldable pub base_of : String → Dict → Result Dict
unfolding before_bracket
base_of typ spec = elim (before_bracket typ) [
  | none ↦ err (value_error "substring not found")
  | some base ↦ ok (put "type" (str base) spec)
]

-- `bool(value)`
abbrev pub truth : AbiValue → Bool
truth (int n) = truthy (num n)
truth (boolean b) = b
truth (bytes bs) = not (is_empty bs)
truth (text s) = is_text s
truth (seq no_values) = false
truth (seq (value v vs)) = true

-- `str(int(value))`
unfoldable pub int_text : AbiValue → Result Value
int_text (int n) = ok (str (show_ℤ n))
int_text (boolean b) = ok (str (if b then "1" else "0"))
int_text (text s) = elim (int_of s) [
  | none ↦ err (value_error "invalid literal for int()")
  | some n ↦ ok (str (show_ℤ n))
]
int_text (bytes bs) = err (value_error "invalid literal for int()")
int_text (seq vs) = err (type_error "int() argument must be a string or a number")

unfoldable mutual
  -- A value as it is, which the request's JSON spells.
  pub plain_value : AbiValue → Value
  plain_value (int n) = num n
  plain_value (boolean b) = bool b
  plain_value (bytes bs) = str ("0x" ++ to_hex bs)
  plain_value (text s) = str s
  plain_value (seq vs) = arr (plain_values vs)

  pub plain_values : AbiValues → Items
  plain_values no_values = nil
  plain_values (value v vs) = cons (plain_value v) (plain_values vs)

-- `spec.get("components", [])`
unfoldable pub components_in : Value → Result Items
components_in (arr vs) = ok vs
components_in v = err (type_error "components are no list")

module _ (repr : Value → String) (to_checksum_address : AbiValue → Result String) where
  -- The types that are no array and no tuple.
  unfoldable pub scalar_value : String → AbiValue → Result Value
  unfolding int_text plain_value
  scalar_value typ v =
      if str_eq typ "address"
      then (do address ← to_checksum_address v; ok (str address))
      else if str_eq typ "bool"
      then ok (bool (truth v))
      else if starts_with typ "uint" || starts_with typ "int"
      then int_text v
      else ok (plain_value v)

  -- What a value that is no sequence gives: it cannot be iterated.
  unfoldable pub single_value : Dict → AbiValue → Result Value
  unfolding scalar_value
  single_value spec v = do
    typ ← type_text repr spec
    if ends_with typ "]"
        then (do base_of typ spec; err (type_error "the value cannot be iterated"))
        else if str_eq typ "tuple"
        then err (type_error "the value cannot be iterated")
        else scalar_value typ v

  -- What a sequence gives, by what it gives as a list and as the components of a tuple.
  unfoldable pub seq_value :
      Dict → AbiValues → (Dict → Result Items) → (Items → Result Dict) → Result Value
  unfolding scalar_value components_in base_of
  seq_value spec vs as_list as_tuple = do
    typ ← type_text repr spec
    if ends_with typ "]"
        then (do base ← base_of typ spec; items ← as_list base; ok (arr items))
        else if str_eq typ "tuple"
        then (do
          components ← components_in (get_default "components" (arr nil) spec)
          fields ← as_tuple components
          ok (obj fields))
        else scalar_value typ (seq vs)

  unfoldable mutual
    unfolding single_value seq_value

    -- `_json_value`
    pub json_value : AbiValue → Dict → Result Value
    json_value (seq vs) spec =
        seq_value spec vs (json_values vs) (λ components. json_fields vs components empty)
    json_value (int n) spec = single_value spec (int n)
    json_value (boolean b) spec = single_value spec (boolean b)
    json_value (bytes bs) spec = single_value spec (bytes bs)
    json_value (text s) spec = single_value spec (text s)

    -- `[_json_value(v, base) for v in value]`
    pub json_values : AbiValues → Dict → Result Items
    json_values no_values base = ok nil
    json_values (value v vs) base =
        json_value v base >>= λ first. json_values vs base >>= λ rest. ok (cons first rest)

    -- `{c["name"]: _json_value(v, c) for c, v in zip(components, value, strict=True)}`, from a
    -- part of the dict on.
    pub json_fields : AbiValues → Items → Dict → Result Dict
    json_fields no_values nil fields = ok fields
    json_fields (value v vs) (cons (obj c) cs) fields = item "name" c >>= λ name.
        json_value v c >>= λ first. json_fields vs cs (put (text_of repr name) first fields)
    json_fields (value v vs) (cons c cs) fields = err (type_error "an ABI entry is no dict")
    json_fields vs cs fields = err (value_error "zip() arguments have different lengths")

  -- `[_json_value(value, spec) for value, spec in zip(values, inputs, strict=True)]`
  unfoldable pub json_args : AbiValues → Items → Result Items
  json_args no_values nil = ok nil
  json_args (value v vs) (cons (obj c) cs) =
      json_value v c >>= λ first. json_args vs cs >>= λ rest. ok (cons first rest)
  json_args (value v vs) (cons c cs) = err (type_error "an ABI entry is no dict")
  json_args vs cs = err (value_error "zip() arguments have different lengths")
