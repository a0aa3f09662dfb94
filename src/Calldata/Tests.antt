-- ===== src/Calldata/Tests.antt =====
-- Runs of almanak_keeperhub/calldata.py on `set(uint256)` and on a function with a tuple, with a
-- codec that writes a number below 256 as one byte.
use almanak_keeperhub.Prelude.{ℕ, ◌≡◌, refl, true, false, none, List, [], ◌∷◌}
use almanak_keeperhub.Prelude.Int.{pos}
use almanak_keeperhub.Python.Text.{
  show_ℤ, char_of, lower, show, skip_spaces, strip, is_space, is_blank, drop, starts_with,
  ends_with, join_with,
}
use almanak_keeperhub.Python.Bytes.{from_hex, to_hex, eqb}
use almanak_keeperhub.Python.Json.{Dict, str, arr, obj, nil, cons, empty, entry, find, text_of, put}
use almanak_keeperhub.Errors.{Result, ok, err, value_error, ◌>>=◌}
use almanak_keeperhub.Calldata.Inputs.{
  FunctionSig, signature, parse_signature, match_signature, number_inputs, type_to_abi_input,
  canonical_types,
}
use almanak_keeperhub.Calldata.Split.{split_top_level}
use almanak_keeperhub.Calldata.Types.{
  SolTypes, word, tuple, end, and, print, is_written, are_written,
}
use almanak_keeperhub.Calldata.RoundTrip.{written, signature-parse_signature}
use almanak_keeperhub.Calldata.Index.{
  SelectorIndex, default_index, merge_signatures, merge_documents, add, find_sig, put_sig, lookup,
  selector, is_bare,
}
use almanak_keeperhub.Calldata.Order.{IsNamedFirst, add-add}
use almanak_keeperhub.Calldata.Values.{
  AbiValues, int, no_values, value, named_inputs, json_args, json_value,
}
use almanak_keeperhub.Calldata.Decode.{EthAbi, DecodedCall, decode_calldata, abi_entry}
use almanak_keeperhub.Calldata.Faithful.{IsFaithful, decode_calldata-IsFaithful}

abbrev read_byte : List ℕ → Result AbiValues
read_byte (b ∷ []) = ok (value (int (pos b)) no_values)
read_byte bs = err (value_error "not one byte")

abbrev write_byte : AbiValues → Result (List ℕ)
write_byte (value (int (pos b)) no_values) = ok (b ∷ [])
write_byte vs = err (value_error "not one byte")

abbrev pub toy_abi : EthAbi
toy_abi = record {
  decode = λ types bs. read_byte bs;
  encode = λ types vs. write_byte vs;
  selector_of = λ s. "60fe47b1";
  to_checksum_address = λ v. ok "0x";
  repr = λ v. "";
}

abbrev pub set_sig : FunctionSig
set_sig = record {
  name = "set";
  inputs = cons (obj (entry "name" (str "arg0") (entry "type" (str "uint256") empty))) nil;
}

abbrev pub toy_index : SelectorIndex
toy_index = ("0x60fe47b1", set_sig) ∷ []

parsed : parse_signature "set(uint256)" ≡ ok set_sig
unfolding parse_signature match_signature skip_spaces is_blank number_inputs split_top_level strip
    type_to_abi_input starts_with show
parsed = refl

pub toy_index_built :
    default_index toy_abi.repr toy_abi.selector_of ("set(uint256)" ∷ []) [] ≡ ok toy_index
unfolding default_index merge_signatures merge_documents parse_signature match_signature skip_spaces
    is_blank number_inputs split_top_level strip type_to_abi_input starts_with show add signature
    canonical_types find text_of find_sig put_sig
toy_index_built = refl

abbrev pub set_entry : Dict
set_entry = entry "type" (str "function") (
    entry "name" (str "set") (
      entry "inputs" (arr set_sig.inputs)
        (entry "outputs" (arr nil) (entry "stateMutability" (str "nonpayable") empty))))

abbrev pub set_seven : DecodedCall
set_seven = record {
  function_name = "set";
  signature = "set(uint256)";
  function_args = cons (str "7") nil;
  abi = cons (obj set_entry) nil;
}

pub decoded : decode_calldata toy_abi "0xC0" "0x60fe47b107" 0 toy_index ≡ ok set_seven
unfolding decode_calldata from_hex starts_with drop is_space lookup find_sig lower to_hex
    canonical_types find text_of eqb named_inputs signature json_args json_value ends_with abi_entry
    show show_ℤ char_of put join_with
decoded = refl

decode_calldata-IsFaithful_example : IsFaithful toy_abi "0x60fe47b107" 0 set_seven
decode_calldata-IsFaithful_example =
    decode_calldata-IsFaithful toy_abi ("set(uint256)" ∷ []) [] toy_index "0xC0" "0x60fe47b107" 0
      set_seven toy_index_built decoded

abbrev swap_types : SolTypes
swap_types =
    and (tuple (and (word "address") (and (word "uint24[]") end)) "[2]") (and (word "bytes") end)

swap_is_written : are_written swap_types ≡ true
unfolding is_written is_space starts_with
swap_is_written = refl

swap_written : written "exact_$1" swap_types ≡ "exact_$1((address,uint24[])[2],bytes)"
unfolding written print join_with
swap_written = refl

signature-parse_signature_example :
    (parse_signature (written "exact_$1" swap_types) >>= signature (λ v. ""))
    ≡ ok (written "exact_$1" swap_types)
signature-parse_signature_example =
    signature-parse_signature (λ v. "") "exact_$1" swap_types refl swap_is_written

abbrev named_set : FunctionSig
named_set = record {
  name = "set";
  inputs = cons (obj (entry "name" (str "amount") (entry "type" (str "uint256") empty))) nil;
}

abbrev named_index : SelectorIndex
named_index = ("0x60fe47b1", named_set) ∷ []

bare-selector : selector toy_abi.repr toy_abi.selector_of set_sig ≡ ok "0x60fe47b1"
unfolding selector signature canonical_types find text_of starts_with
bare-selector = refl

named-selector : selector toy_abi.repr toy_abi.selector_of named_set ≡ ok "0x60fe47b1"
unfolding selector signature canonical_types find text_of starts_with
named-selector = refl

set_sig-is_bare : is_bare set_sig ≡ ok true
unfolding is_bare find starts_with
set_sig-is_bare = refl

named_set-is_bare : is_bare named_set ≡ ok false
unfolding is_bare find starts_with
named_set-is_bare = refl

bare_first :
    (add toy_abi.repr toy_abi.selector_of set_sig []
      >>= add toy_abi.repr toy_abi.selector_of named_set)
    ≡ ok named_index
unfolding add signature canonical_types find text_of find_sig put_sig starts_with is_bare
bare_first = refl

named_first :
    (add toy_abi.repr toy_abi.selector_of named_set []
      >>= add toy_abi.repr toy_abi.selector_of set_sig)
    ≡ ok named_index
unfolding add signature canonical_types find text_of find_sig put_sig starts_with is_bare
named_first = refl

add-add_example :
    (find_sig "0x60fe47b1" named_index ≡ find_sig "0x60fe47b1" named_index)
    × IsNamedFirst named_set none (find_sig "0x60fe47b1" named_index)
unfolding find_sig
add-add_example =
    add-add toy_abi.repr toy_abi.selector_of "0x60fe47b1" "0x60fe47b1" set_sig named_set []
      named_index named_index bare-selector named-selector set_sig-is_bare named_set-is_bare
      bare_first named_first
