-- ===== src/Calldata/Decode.antt =====
-- calldata.py: `decode_calldata`.
use Prim.Native.String.{◌++◌}
use almanak_keeperhub.Prelude.{
  ℕ, String, not, Option, none, some, List, [], ◌∷◌, length, ltb, is_empty, if◌then◌else◌,
}
use almanak_keeperhub.Python.Text
use almanak_keeperhub.Python.Text.{is_text, starts_with, join}
use almanak_keeperhub.Python.Bytes.{from_hex, to_hex, take, drop, eqb}
use almanak_keeperhub.Python.Json.{Value, Items, Dict, str, arr, obj, nil, cons, empty, entry}
use almanak_keeperhub.Errors.{Result, ok, err, undecodable, value_error, ◌>>=◌}
use almanak_keeperhub.Calldata.Inputs.{FunctionSig, canonical_types, signature}
use almanak_keeperhub.Calldata.Index.{SelectorIndex, lookup}
use almanak_keeperhub.Calldata.Values.{AbiValue, AbiValues, no_values, named_inputs, json_args}

-- What the module uses of eth_abi and eth_utils: `decode` and `encode` of a list of types, the
-- hexadecimal text of `function_signature_to_4byte_selector`, and `to_checksum_address`; and what
-- `str` prints of a list or dict.
pub record EthAbi : Type 0 where
  pub decode : List String → List ℕ → Result AbiValues
  pub encode : List String → AbiValues → Result (List ℕ)
  pub selector_of : String → String
  pub to_checksum_address : AbiValue → Result String
  pub repr : Value → String

-- `DecodedCall`
pub record DecodedCall : Type 0 where
  pub function_name : String
  pub signature : String
  pub function_args : Items
  pub abi : Items

-- `data[2:] if data.startswith("0x") else data`
unfoldable pub hex_part : String → String
hex_part data_hex = if starts_with data_hex "0x" then Text.drop 2 data_hex else data_hex

-- `"0x" + raw[:4].hex()`
unfoldable pub selector_in : List ℕ → String
selector_in raw = "0x" ++ to_hex (take 4 raw)

unfoldable pub abi_entry : String → Items → ℕ → Dict
abi_entry name inputs value_wei = entry "type" (str "function") (
    entry "name" (str name) (
      entry "inputs" (arr inputs) (
        entry "outputs" (arr nil) (
          entry "stateMutability" (str (if ltb 0 value_wei then "payable" else "nonpayable"))
            empty))))

module _ (eth : EthAbi) (to : String) where
  -- `abi_decode(sig.types, raw[4:]) if sig.types else ()`
  unfoldable pub decode_values : List String → List ℕ → Result AbiValues
  decode_values types args = if is_empty types then ok no_values else eth.decode types args

  -- The call of a function with its values.
  unfoldable pub spelled_call : FunctionSig → AbiValues → ℕ → Result DecodedCall
  unfolding abi_entry
  spelled_call sig values value_wei = do
    inputs ← named_inputs eth.repr "arg" 0 sig.inputs
    text ← signature eth.repr sig
    args ← json_args eth.repr eth.to_checksum_address values inputs
    ok (record {
      function_name = sig.name;
      signature = text;
      function_args = args;
      abi = cons (obj (abi_entry sig.name inputs value_wei)) nil;
    })

  -- The check that the values are encoded to the same bytes, and what comes after it.
  unfoldable pub decoded_call :
      FunctionSig → List String → AbiValues → List ℕ → String → ℕ → Result DecodedCall
  unfolding spelled_call
  decoded_call sig types values args selector value_wei = do
    encoded ← eth.encode types values
    if not (eqb encoded args)
        then err (
            undecodable (record {
              selector = join (selector ∷ " (trailing or malformed argument bytes)" ∷ []);
              to = to;
            }))
        else spelled_call sig values value_wei

  unfoldable pub decode_with : Option FunctionSig → String → List ℕ → ℕ → Result DecodedCall
  unfolding decode_values decoded_call
  decode_with none selector args value_wei =
      err (undecodable (record { selector = selector; to = to }))
  decode_with (some sig) selector args value_wei = do
    types ← canonical_types eth.repr sig.inputs
    values ← decode_values types args
    decoded_call sig types values args selector value_wei

  unfoldable pub decode_raw : String → List ℕ → ℕ → SelectorIndex → Result DecodedCall
  unfolding selector_in decode_with
  decode_raw data_hex raw value_wei index =
      if ltb (length raw) 4
      then err
          (undecodable (record { selector = if is_text data_hex then data_hex else "0x"; to = to }))
      else decode_with (lookup (selector_in raw) index) (selector_in raw) (drop 4 raw) value_wei

  unfoldable pub decode_bytes : String → Option (List ℕ) → ℕ → SelectorIndex → Result DecodedCall
  unfolding decode_raw
  decode_bytes data_hex none value_wei index =
      err (value_error "non-hexadecimal number found in fromhex() arg")
  decode_bytes data_hex (some raw) value_wei index = decode_raw data_hex raw value_wei index

  -- `decode_calldata`
  unfoldable pub decode_calldata : String → ℕ → SelectorIndex → Result DecodedCall
  unfolding hex_part decode_bytes
  decode_calldata data_hex value_wei index =
      decode_bytes data_hex (from_hex (hex_part data_hex)) value_wei index
