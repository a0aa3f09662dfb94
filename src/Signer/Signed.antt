-- ===== src/Signer/Signed.antt =====
-- almanak_keeperhub/signer.py: what `call_for` and `sign` promise of a transaction.
use almanak_keeperhub.Prelude.{
  ◌≤◌, String, ◌≡◌, refl, sym, Bool, true, false, ◌||◌, Option, none, some, List, arith, ltb,
  eq_iff, get_or, Bool-cases, ◌⊎◌, inl, inr,
}
use almanak_keeperhub.Python.Text.{is_text, length, lower}
use almanak_keeperhub.Python.Json.{Value, nil}
use almanak_keeperhub.Errors.{
  Result, ok, err, api, undecodable, submission, signing, transport, timeout, value_error,
  type_error, key_error, runtime_error, attribute_error, assertion_error, out_of_fuel, ok-steps,
}
use almanak_keeperhub.Client.Calls.{ContractCall}
use almanak_keeperhub.Calldata.Index.{SelectorIndex, default_index}
use almanak_keeperhub.Calldata.Decode.{EthAbi, DecodedCall, decode_calldata}
use almanak_keeperhub.Calldata.Faithful.{IsFaithful, decode_calldata-IsFaithful}
use almanak_keeperhub.Signer.{
  UnsignedTransaction, text_of_to, data_or_0x, value_or_0, idempotency_key_for,
}
use almanak_keeperhub.Signer.Calls.{
  is_refused, raw_call, typed_call, call_of, call_for, KeeperHubSignedTransaction, is_foreign,
  signed_with, sign,
}

-- How a call spells the calldata of a transaction: by a function and its arguments, which are
-- encoded to the calldata again, or by the calldata alone, if KeeperHub may take it.
pub data Spells (eth : EthAbi) (tx : UnsignedTransaction) (raw_calldata : Option Bool)
    (call : ContractCall) : Type 0 where
  typed :
      (decoded : DecodedCall)
      → IsFaithful eth (data_or_0x tx.data_hex) (value_or_0 tx.value) decoded
      → call.function_name ≡ decoded.function_name
      → call.function_args ≡ decoded.function_args
      → call.abi ≡ decoded.abi
      → Spells eth tx raw_calldata call
  raw :
      is_refused raw_calldata ≡ false
      → 10 ≤ length (data_or_0x tx.data_hex)
      → call.function_name ≡ ""
      → call.function_args ≡ nil
      → call.abi ≡ nil
      → Spells eth tx raw_calldata call

-- A call does what the transaction asks for: the same contract, chain, value and calldata.
pub record IsCallOf (eth : EthAbi) (tx : UnsignedTransaction) (raw_calldata : Option Bool)
    (call : ContractCall) : Type 0 where
  pub address : call.contract_address ≡ text_of_to tx.to
  pub chain : call.chain_id ≡ tx.chain_id
  pub wei : call.value_wei ≡ value_or_0 tx.value
  pub calldata : call.data_hex ≡ some (data_or_0x tx.data_hex)
  pub spelling : Spells eth tx raw_calldata call

module _ (eth : EthAbi) (tx : UnsignedTransaction) (raw_calldata : Option Bool) where
  typed_call-IsCallOf :
      (decoded : DecodedCall)
      → IsFaithful eth (data_or_0x tx.data_hex) (value_or_0 tx.value) decoded
      → IsCallOf eth tx raw_calldata (typed_call tx decoded)
  unfolding typed_call
  typed_call-IsCallOf decoded f = record {
    address = refl;
    chain = refl;
    wei = refl;
    calldata = refl;
    spelling = typed decoded f refl refl refl;
  }

  raw_call-IsCallOf :
      is_refused raw_calldata ≡ false
      → 10 ≤ length (data_or_0x tx.data_hex)
      → IsCallOf eth tx raw_calldata (raw_call tx)
  unfolding raw_call
  raw_call-IsCallOf open_to_raw long = record {
    address = refl;
    chain = refl;
    wei = refl;
    calldata = refl;
    spelling = raw open_to_raw long refl refl refl;
  }

  call_of-IsCallOf :
      (outcome : Result DecodedCall) (call : ContractCall)
      → ((decoded : DecodedCall)
          → outcome ≡ ok decoded
          → IsFaithful eth (data_or_0x tx.data_hex) (value_or_0 tx.value) decoded)
      → call_of tx raw_calldata outcome ≡ ok call
      → IsCallOf eth tx raw_calldata call
  unfolding call_of
  call_of-IsCallOf (ok decoded) call f h =
      let made : typed_call tx decoded ≡ call = cc in
      rw (sym made) (typed_call-IsCallOf decoded (f decoded refl))
  call_of-IsCallOf (err (undecodable e)) call f h =
      elim (Bool-cases (is_refused raw_calldata || ltb (length (data_or_0x tx.data_hex)) 10)) [
        | inl shut ↦ let refused = rw shut at h in cc
        | inr free ↦
            let done = rw free at h in
            let made : raw_call tx ≡ call = cc in
            rw (sym made) (raw_call-IsCallOf (ground arith) (ground arith))
      ]
  call_of-IsCallOf (err (api e)) call f h = cc
  call_of-IsCallOf (err (submission e)) call f h = cc
  call_of-IsCallOf (err (signing e)) call f h = cc
  call_of-IsCallOf (err (transport e)) call f h = cc
  call_of-IsCallOf (err (timeout e)) call f h = cc
  call_of-IsCallOf (err (value_error e)) call f h = cc
  call_of-IsCallOf (err (type_error e)) call f h = cc
  call_of-IsCallOf (err (key_error e)) call f h = cc
  call_of-IsCallOf (err (runtime_error e)) call f h = cc
  call_of-IsCallOf (err (attribute_error e)) call f h = cc
  call_of-IsCallOf (err assertion_error) call f h = cc
  call_of-IsCallOf (err out_of_fuel) call f h = cc

  pub call_for-IsCallOf :
      (bundled : List String) (documents : List (Option Value)) (index : SelectorIndex)
      (call : ContractCall)
      → default_index eth.repr eth.selector_of bundled documents ≡ ok index
      → call_for eth tx index raw_calldata ≡ ok call
      → IsCallOf eth tx raw_calldata call
  unfolding call_for
  call_for-IsCallOf bundled documents index call built h =
      call_of-IsCallOf
        (decode_calldata eth (text_of_to tx.to) (data_or_0x tx.data_hex) (value_or_0 tx.value)
          index)
        call
        (λ decoded d.
          decode_calldata-IsFaithful eth bundled documents index (text_of_to tx.to)
            (data_or_0x tx.data_hex) (value_or_0 tx.value) decoded built d)
        h

-- The transaction is the organization wallet's own, as far as it says.
abbrev pub IsOwn : Option String → String → Type 0
IsOwn none address = Unit {0}
IsOwn (some from_address) address = (from_address ≡ "") ⊎ (lower from_address ≡ lower address)

pub record IsSigned (eth : EthAbi) (sha256 : String → String) (address : String)
    (raw_calldata : Option Bool) (work_id salt : String) (tx : UnsignedTransaction)
    (signed_tx : KeeperHubSignedTransaction) : Type 0 where
  pub to : String
  pub has_to : tx.to ≡ some to
  pub to_text : is_text to ≡ true
  pub own : IsOwn tx.from_address address
  pub call : IsCallOf eth tx raw_calldata signed_tx.call
  pub key : signed_tx.idempotency_key ≡ idempotency_key_for sha256 tx address work_id salt
  pub of : signed_tx.unsigned_tx ≡ tx

to_given :
    (to : Option String)
    → is_text (get_or to "") ≡ true
    → (t : String) × (to ≡ some t) × (is_text t ≡ true)
to_given none h = cc
to_given (some t) h = (t, refl, h)

is_foreign-IsOwn :
    (from_address : Option String) (address : String)
    → is_foreign from_address address ≡ false
    → IsOwn from_address address
unfolding is_foreign
is_foreign-IsOwn none address h = tt
is_foreign-IsOwn (some String.[]) address h = inl refl
is_foreign-IsOwn (some (String.◌∷◌ c s)) address h =
    inr (ground (arith, eq_iff (lower (String.◌∷◌ c s)) (lower address)))

-- A transaction that `sign` returns is signed for the organization wallet: it has a recipient, its
-- sender, if it names one, is the wallet, its call asks for the same contract, chain, value and
-- calldata, spelt by a function and arguments that are encoded to the calldata again, or by the
-- calldata alone unless KeeperHub is known to refuse that, and its key is the one of the work.
pub sign-IsSigned :
    (eth : EthAbi) (sha256 : String → String) (address : String) (bundled : List String)
    (documents : List (Option Value)) (index : SelectorIndex) (raw_calldata : Option Bool)
    (work_id salt : String) (tx : UnsignedTransaction) (signed_tx : KeeperHubSignedTransaction)
    → default_index eth.repr eth.selector_of bundled documents ≡ ok index
    → sign eth sha256 address index raw_calldata work_id salt tx ≡ ok signed_tx
    → IsSigned eth sha256 address raw_calldata work_id salt tx signed_tx
unfolding sign signed_with
sign-IsSigned eth sha256 address bundled documents index raw_calldata work_id salt tx signed_tx
      built h =
    elim (Bool-cases (is_text (get_or tx.to ""))) [
      | inr no_to ↦ let refused = rw no_to at h in cc
      | inl some_to ↦ elim (Bool-cases (is_foreign tx.from_address address)) [
        | inl foreign ↦ let refused = rw (some_to, foreign) at h in cc
        | inr own ↦
            let passed = rw (some_to, own) at h in
            let key = idempotency_key_for sha256 tx address work_id salt in
            let (call, called, made) =
              ok-steps (call_for eth tx index raw_calldata) (λ call. ok (signed_with key tx call))
                passed in
            let result : signed_with key tx call ≡ signed_tx = cc in
            let (t, given, text) = to_given tx.to some_to in
            rw (sym result) (record {
              to = t;
              has_to = given;
              to_text = text;
              own = is_foreign-IsOwn tx.from_address address own;
              call =
                  call_for-IsCallOf eth tx raw_calldata bundled documents index call built called;
              key = refl;
              of = refl;
            })
      ]
    ]
