-- ===== src/Calldata/Faithful.antt =====
-- calldata.py: the call that `decode_calldata` gives is encoded to the calldata again.
use Prim.Native.String.{◌++◌}
use almanak_keeperhub.Prelude.{
  ℕ, ◌≤◌, String, ◌≡◌, refl, sym, ap, ◌∙◌, true, false, not, Option, none, some, List, [], ◌∷◌,
  arith, length, ltb, Bool-cases, inl, inr, if◌then◌else◌,
}
use almanak_keeperhub.Python.Text.{lower, join, join_with}
use almanak_keeperhub.Python.Bytes.{from_hex, drop, eqb}
use almanak_keeperhub.Python.Json.{Value, Items, obj, nil, cons}
use almanak_keeperhub.Errors.{ok, err, undecodable, ◌>>=◌, ok-steps}
use almanak_keeperhub.Calldata.Inputs.{FunctionSig, canonical_types, signature}
use almanak_keeperhub.Calldata.Index.{SelectorIndex, lookup, selector, default_index}
use almanak_keeperhub.Calldata.Values.{AbiValues, named_inputs, json_args}
use almanak_keeperhub.Calldata.Keyed.{IsKeyed, lookup-IsKeyed, default_index-IsKeyed}
use almanak_keeperhub.Calldata.Named.{named_inputs-types}
use almanak_keeperhub.Calldata.Decode.{
  EthAbi, DecodedCall, hex_part, selector_in, abi_entry, decode_values, decoded_call, decode_bytes,
  spelled_call, decode_with, decode_raw, decode_calldata,
}

eqb-eq : (xs ys : List ℕ) → eqb xs ys ≡ true → xs ≡ ys
unfolding eqb
eqb-eq [] [] h = refl
eqb-eq [] (y ∷ ys) h = cc
eqb-eq (x ∷ xs) [] h = cc
eqb-eq (x ∷ xs) (y ∷ ys) h = ground (arith, eqb-eq xs ys)

leb-of-ltb : (n : ℕ) → ltb n 4 ≡ false → 4 ≤ n
leb-of-ltb n h = ground arith

-- The call's ABI entry and its arguments stand for the calldata: the entry's inputs have the types
-- of the signature, the values that the arguments spell are encoded by these types to what follows
-- the selector, and the selector is the one of the signature.
pub record IsFaithful (eth : EthAbi) (calldata : String) (value_wei : ℕ) (call : DecodedCall)
    : Type 0 where
  pub raw : List ℕ
  pub inputs : Items
  pub types : List String
  pub values : AbiValues
  pub is_raw : from_hex (hex_part calldata) ≡ some raw
  pub has_selector : 4 ≤ length raw
  pub entry : call.abi ≡ cons (obj (abi_entry call.function_name inputs value_wei)) nil
  pub typed : canonical_types eth.repr inputs ≡ ok types
  pub signed : call.signature ≡ call.function_name ++ "(" ++ join_with "," types ++ ")"
  pub selected : lower (selector_in raw) ≡ "0x" ++ eth.selector_of call.signature
  pub encoded : eth.encode types values ≡ ok (drop 4 raw)
  pub spelled : json_args eth.repr eth.to_checksum_address values inputs ≡ ok call.function_args

module _ (eth : EthAbi) (to calldata : String) (value_wei : ℕ) (call : DecodedCall) (raw : List ℕ)
    (is_raw : from_hex (hex_part calldata) ≡ some raw) where
  module _ (long : 4 ≤ length raw) (sig : FunctionSig) (types : List String) (values : AbiValues)
      (found : selector eth.repr eth.selector_of sig ≡ ok (lower (selector_in raw)))
      (typed : canonical_types eth.repr sig.inputs ≡ ok types) where
    signature-typed : signature eth.repr sig ≡ ok (sig.name ++ "(" ++ join_with "," types ++ ")")
    unfolding signature
    signature-typed = rw typed

    selector-signed :
        (text : String)
        → signature eth.repr sig ≡ ok text
        → lower (selector_in raw) ≡ "0x" ++ eth.selector_of text
    unfolding selector
    selector-signed text signed =
        let own : ok ("0x" ++ eth.selector_of text) ≡ ok (lower (selector_in raw)) =
          rw signed at found in
        cc

    spelled_call-IsFaithful :
        eth.encode types values ≡ ok (drop 4 raw)
        → spelled_call eth to sig values value_wei ≡ ok call
        → IsFaithful eth calldata value_wei call
    unfolding spelled_call
    spelled_call-IsFaithful encoded h =
        let (inputs, named, h') =
          ok-steps (named_inputs eth.repr "arg" 0 sig.inputs)
            (λ inputs. signature eth.repr sig >>= λ text.
              json_args eth.repr eth.to_checksum_address values inputs >>= λ args.
              ok (call_of inputs text args))
            h in
        let (text, signed, h2) =
          ok-steps (signature eth.repr sig)
            (λ text. json_args eth.repr eth.to_checksum_address values inputs >>= λ args.
              ok (call_of inputs text args))
            h' in
        let (args, spelled, h3) =
          ok-steps (json_args eth.repr eth.to_checksum_address values inputs)
            (λ args. ok (call_of inputs text args)) h2 in
        let made : call_of inputs text args ≡ call = cc in
        let spelt : text ≡ sig.name ++ "(" ++ join_with "," types ++ ")" =
          let both = signature-typed in cc in
        rw (sym made) (record {
          raw = raw;
          inputs = inputs;
          types = types;
          values = values;
          is_raw = is_raw;
          has_selector = long;
          entry = refl;
          typed = named_inputs-types eth.repr "arg" 0 sig.inputs inputs named ∙ typed;
          signed = spelt;
          selected = selector-signed text signed;
          encoded = encoded;
          spelled = spelled;
        })
      where
        call_of : Items → String → Items → DecodedCall
        call_of inputs text args = record {
          function_name = sig.name;
          signature = text;
          function_args = args;
          abi = cons (obj (abi_entry sig.name inputs value_wei)) nil;
        }

    decoded_call-IsFaithful :
        decoded_call eth to sig types values (drop 4 raw) (selector_in raw) value_wei ≡ ok call
        → IsFaithful eth calldata value_wei call
    unfolding decoded_call
    decoded_call-IsFaithful h =
        let (encoded, enc, h') =
          ok-steps (eth.encode types values)
            (λ encoded.
              if not (eqb encoded (drop 4 raw))
              then err (
                  undecodable (record {
                    selector =
                        join (selector_in raw ∷ " (trailing or malformed argument bytes)" ∷ []);
                    to = to;
                  }))
              else spelled_call eth to sig values value_wei)
            h in
        elim (Bool-cases (eqb encoded (drop 4 raw))) [
          | inl same ↦
              spelled_call-IsFaithful (enc ∙ ap ok (eqb-eq encoded (drop 4 raw) same))
                (rw same at h')
          | inr other ↦ let refused = rw other at h' in cc
        ]

  decode_with-IsFaithful :
      (sig : Option FunctionSig)
      → 4 ≤ length raw
      → ((f : FunctionSig)
          → sig ≡ some f
          → selector eth.repr eth.selector_of f ≡ ok (lower (selector_in raw)))
      → decode_with eth to sig (selector_in raw) (drop 4 raw) value_wei ≡ ok call
      → IsFaithful eth calldata value_wei call
  unfolding decode_with
  decode_with-IsFaithful none long found h = cc
  decode_with-IsFaithful (some sig) long found h =
      let args = drop 4 raw in
      let (types, typed, h') =
        ok-steps (canonical_types eth.repr sig.inputs)
          (λ types. decode_values eth to types args >>= λ values.
            decoded_call eth to sig types values args (selector_in raw) value_wei)
          h in
      let (values, decoded, h2) =
        ok-steps (decode_values eth to types args)
          (λ values. decoded_call eth to sig types values args (selector_in raw) value_wei) h' in
      decoded_call-IsFaithful long sig types values (found sig refl) typed h2

  decode_raw-IsFaithful :
      (index : SelectorIndex)
      → IsKeyed eth.repr eth.selector_of index
      → decode_raw eth to calldata raw value_wei index ≡ ok call
      → IsFaithful eth calldata value_wei call
  unfolding decode_raw
  decode_raw-IsFaithful index keyed h = elim (Bool-cases (ltb (length raw) 4)) [
    | inl short ↦ let refused = rw short at h in cc
    | inr long ↦
        decode_with-IsFaithful (lookup (selector_in raw) index) (leb-of-ltb (length raw) long)
          (λ f found. lookup-IsKeyed eth.repr eth.selector_of (selector_in raw) f index keyed found)
          (rw long at h)
  ]

decode_bytes-IsFaithful :
    (eth : EthAbi) (to calldata : String) (value_wei : ℕ) (call : DecodedCall)
    (index : SelectorIndex) (raw : Option (List ℕ))
    → from_hex (hex_part calldata) ≡ raw
    → IsKeyed eth.repr eth.selector_of index
    → decode_bytes eth to calldata raw value_wei index ≡ ok call
    → IsFaithful eth calldata value_wei call
unfolding decode_bytes
decode_bytes-IsFaithful eth to calldata value_wei call index none e keyed h = cc
decode_bytes-IsFaithful eth to calldata value_wei call index (some raw) e keyed h =
    decode_raw-IsFaithful eth to calldata value_wei call raw e index keyed h

pub decode_keyed-IsFaithful :
    (eth : EthAbi) (to calldata : String) (value_wei : ℕ) (index : SelectorIndex)
    (call : DecodedCall)
    → IsKeyed eth.repr eth.selector_of index
    → decode_calldata eth to calldata value_wei index ≡ ok call
    → IsFaithful eth calldata value_wei call
unfolding decode_calldata
decode_keyed-IsFaithful eth to calldata value_wei index call keyed h =
    decode_bytes-IsFaithful eth to calldata value_wei call index (from_hex (hex_part calldata)) refl
      keyed h

-- Nothing is guessed: a call that `decode_calldata` gives by the default index, whatever the ABI
-- files hold, is encoded to the calldata again. The selector of its signature is the calldata's
-- (in lower case), the inputs of the ABI that is sent have the types of the signature, and the
-- values that the arguments spell are encoded by these types to the bytes after the selector.
pub decode_calldata-IsFaithful :
    (eth : EthAbi) (bundled : List String) (documents : List (Option Value)) (index : SelectorIndex)
    (to calldata : String) (value_wei : ℕ) (call : DecodedCall)
    → default_index eth.repr eth.selector_of bundled documents ≡ ok index
    → decode_calldata eth to calldata value_wei index ≡ ok call
    → IsFaithful eth calldata value_wei call
decode_calldata-IsFaithful eth bundled documents index to calldata value_wei call built h =
    decode_keyed-IsFaithful eth to calldata value_wei index call
      (default_index-IsKeyed eth.repr eth.selector_of bundled documents index built) h
