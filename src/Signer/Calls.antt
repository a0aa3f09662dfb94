-- ===== src/Signer/Calls.antt =====
-- almanak_keeperhub/signer.py: `call_for`, the KeeperHub call of a compiled transaction, and
-- `sign`.
use Prim.Native.String.{◌++◌}
use almanak_keeperhub.Prelude.{
  String, Bool, true, false, not, ◌&&◌, ◌||◌, Option, none, some, [], ◌∷◌, ltb, str_eq, get_or,
  if◌then◌else◌,
}
use almanak_keeperhub.Python.Text.{is_text, join, length, lower}
use almanak_keeperhub.Python.Json.{nil}
use almanak_keeperhub.Errors.{Result, Undecodable, ok, err, undecodable, signing, ◌>>=◌}
use almanak_keeperhub.Client.Calls.{ContractCall}
use almanak_keeperhub.Calldata.Index.{SelectorIndex}
use almanak_keeperhub.Calldata.Decode.{EthAbi, DecodedCall, decode_calldata}
use almanak_keeperhub.Signer.{
  UnsignedTransaction, text_of_to, data_or_0x, value_or_0, idempotency_key_for,
}

-- `str(exc)` of `UndecodableCalldata`
unfoldable pub undecodable_text : Undecodable → String
undecodable_text e = join (
    "Refusing to submit calldata with unknown selector " ∷ e.selector ∷ " to " ∷ e.to
    ∷ ": KeeperHub needs a function name and typed arguments, and this package will not guess them. Add the ABI to almanak_keeperhub/signatures.json or set ALMANAK_KEEPERHUB_SELECTOR_LOOKUP=openchain."
    ∷ [])

-- The call in the raw spelling only.
unfoldable pub raw_call : UnsignedTransaction → ContractCall
raw_call tx = record {
  contract_address = text_of_to tx.to;
  chain_id = tx.chain_id;
  function_name = "";
  function_args = nil;
  abi = nil;
  value_wei = value_or_0 tx.value;
  data_hex = some (data_or_0x tx.data_hex);
}

-- The call in both spellings.
unfoldable pub typed_call : UnsignedTransaction → DecodedCall → ContractCall
typed_call tx decoded = record {
  contract_address = text_of_to tx.to;
  chain_id = tx.chain_id;
  function_name = decoded.function_name;
  function_args = decoded.function_args;
  abi = decoded.abi;
  value_wei = value_or_0 tx.value;
  data_hex = some (data_or_0x tx.data_hex);
}

-- `raw_calldata is False`
abbrev pub is_refused : Option Bool → Bool
is_refused (some false) = true
is_refused flag = false

-- What `call_for` makes of the outcome of the decoding.
unfoldable pub call_of :
    UnsignedTransaction → Option Bool → Result DecodedCall → Result ContractCall
unfolding raw_call typed_call undecodable_text
call_of tx raw_calldata (ok decoded) = ok (typed_call tx decoded)
call_of tx raw_calldata (err (undecodable e)) =
    if is_refused raw_calldata || ltb (length (data_or_0x tx.data_hex)) 10
    then err (signing (undecodable_text e))
    else ok (raw_call tx)
call_of tx raw_calldata (err e) = err e

-- `call_for`
unfoldable pub call_for :
    EthAbi → UnsignedTransaction → SelectorIndex → Option Bool → Result ContractCall
unfolding call_of
call_for eth tx index raw_calldata =
    call_of tx raw_calldata
      (decode_calldata eth (text_of_to tx.to) (data_or_0x tx.data_hex) (value_or_0 tx.value) index)

-- `KeeperHubSignedTransaction`
pub record KeeperHubSignedTransaction : Type 0 where
  pub raw_tx : String
  pub tx_hash : String
  pub unsigned_tx : UnsignedTransaction
  pub call : ContractCall
  pub idempotency_key : String

-- `tx.from_address and tx.from_address.lower() != self._address.lower()`
unfoldable pub is_foreign : Option String → String → Bool
is_foreign none address = false
is_foreign (some from_address) address =
    is_text from_address && not (str_eq (lower from_address) (lower address))

-- What `sign` does behind its two checks.
unfoldable pub signed_with :
    String → UnsignedTransaction → ContractCall → KeeperHubSignedTransaction
signed_with key tx call = record {
  raw_tx = "0x";
  tx_hash = "0x" ++ key;
  unsigned_tx = tx;
  call = call;
  idempotency_key = key;
}

-- `sign`, by the wallet's address, the index, what the client knows of raw calldata, the work id of
-- the execution and the salt.
unfoldable pub sign :
    EthAbi
    → (String → String)
    → String
    → SelectorIndex
    → Option Bool
    → String
    → String
    → UnsignedTransaction
    → Result KeeperHubSignedTransaction
unfolding is_foreign signed_with
sign eth sha256 address index raw_calldata work_id salt tx =
    if not (is_text (get_or tx.to ""))
    then err (signing "KeeperHub contract-call cannot deploy contracts (tx.to is empty)")
    else if is_foreign tx.from_address address
    then err (
        signing (
          join (
            "tx.from_address "
            ∷ get_or tx.from_address "None"
            ∷ " is not the KeeperHub organization wallet "
            ∷ address
            ∷ [])))
    else (do
      call ← call_for eth tx index raw_calldata
      ok (signed_with (idempotency_key_for sha256 tx address work_id salt) tx call))
