-- ===== src/Signer.antt =====
-- almanak_keeperhub/signer.py: the idempotency key that identifies a piece of work; the call of a
-- transaction is in Calls.
pub mod Calls
pub mod Keys
pub mod Signed
mod Tests
use Prim.Native.String.{◌++◌}
use almanak_keeperhub.Prelude.{ℕ, String, List, [], ◌∷◌, Option, none, some}
use almanak_keeperhub.Prelude.Int.{ℤ}
use almanak_keeperhub.Python.Text.{lower, show}

-- What the package reads of Almanak's `UnsignedTransaction`, and the nonce, which it does not read.
pub record UnsignedTransaction : Type 0 where
  pub chain_id : ℕ
  pub to : Option String
  pub from_address : Option String
  pub data_hex : Option String
  pub value : Option ℕ
  pub gas_limit : Option ℤ
  pub nonce : Option ℕ

-- `"|".join(parts)`
unfoldable pub join_bar : List String → String
join_bar [] = ""
join_bar (p ∷ []) = p
join_bar (p ∷ q ∷ parts) = p ++ "|" ++ join_bar (q ∷ parts)

abbrev pub key_version : String
key_version = "almanak-keeperhub/v2"

-- `str(tx.to)`
abbrev pub text_of_to : Option String → String
text_of_to none = "None"
text_of_to (some to) = to

-- `tx.data or "0x"`
abbrev pub data_or_0x : Option String → String
data_or_0x none = "0x"
data_or_0x (some String.[]) = "0x"
data_or_0x (some (String.◌∷◌ c s)) = String.◌∷◌ c s

-- `int(tx.value or 0)`
abbrev pub value_or_0 : Option ℕ → ℕ
value_or_0 none = 0
value_or_0 (some value) = value

unfoldable pub key_parts : UnsignedTransaction → String → String → String → List String
key_parts tx sender work_id salt =
    key_version
    ∷ show tx.chain_id
    ∷ lower sender
    ∷ lower (text_of_to tx.to)
    ∷ lower (data_or_0x tx.data_hex)
    ∷ show (value_or_0 tx.value)
    ∷ work_id
    ∷ salt
    ∷ []

unfoldable pub joined_parts : UnsignedTransaction → String → String → String → String
unfolding join_bar key_parts
joined_parts tx sender work_id salt = join_bar (key_parts tx sender work_id salt)

-- `idempotency_key_for`; the salt is the value of the environment variable.
unfoldable pub idempotency_key_for :
    (String → String) → UnsignedTransaction → String → String → String → String
idempotency_key_for sha256 tx sender work_id salt = sha256 (joined_parts tx sender work_id salt)
