-- ===== src/Client/Calls.antt =====
-- client.py: `ContractCall` and the amounts that it prints.
use Prim.Native.Char.{code}
use Prim.Native.String.{◌++◌}
use almanak_keeperhub.Prelude.{
  ℕ, zero, suc, ◌+◌, ◌/◌, ◌%◌, ◌^◌, String, ◌≡◌, refl, Bool, not, ◌&&◌, ◌||◌, Option, ◌==◌,
  if◌then◌else◌, get_or,
}
use almanak_keeperhub.Prelude.Int.{pos}
use almanak_keeperhub.Python.Text.{is_text, show, char_of, take}
use almanak_keeperhub.Python.Json.{Items, Dict, num, str, arr, empty, entry, put, truthy}
use almanak_keeperhub.Python.Dumps.{dumps}
use almanak_keeperhub.Errors.{Result, ok, err, value_error}

pub record ContractCall : Type 0 where
  pub contract_address : String
  pub chain_id : ℕ
  pub function_name : String
  pub function_args : Items
  pub abi : Items
  pub value_wei : ℕ
  pub data_hex : Option String

-- `bool(self.data)`
abbrev pub has_data : ContractCall → Bool
has_data c = is_text (get_or c.data_hex "")

unfoldable pub raw_only : ContractCall → Bool
raw_only c = has_data c && not (is_text c.function_name)

-- The k last decimal digits of n, most significant first: `{n:0kd}` for n below 10 ^ k.
unfoldable pub padded : ℕ → ℕ → String
padded zero n = ""
padded (suc k) n = String.◌∷◌ (char_of (48 + n / 10 ^ k % 10)) (padded k n)

-- `s.rstrip("0")`
unfoldable pub rstrip_zeros : String → String
rstrip_zeros String.[] = ""
rstrip_zeros (String.◌∷◌ c s) =
    let rest = rstrip_zeros s in
    if code c == b'0' && not (is_text rest) then "" else String.◌∷◌ c rest

unfoldable pub wei_to_ether_string : ℕ → String
unfolding padded rstrip_zeros
wei_to_ether_string value_wei =
    let whole = value_wei / 10 ^ 18 in
    let frac = value_wei % 10 ^ 18 in
    if frac == 0 then show whole else rstrip_zeros (show whole ++ ("." ++ padded 18 frac))

raw_fields : ContractCall → Dict → Dict
raw_fields c d =
    let with_data = put "data" (str (get_or c.data_hex "")) d in
    if truthy (arr c.abi) then put "abi" (str (dumps (arr c.abi))) with_data else with_data

typed_fields : ContractCall → Dict → Dict
typed_fields c d = put "abi" (str (dumps (arr c.abi))) (
    put "functionArgs" (str (dumps (arr c.function_args)))
      (put "functionName" (str c.function_name) d))

with_value : ContractCall → Dict → Dict
with_value c d =
    if c.value_wei == 0 then d else put "value" (str (wei_to_ether_string c.value_wei)) d

unfoldable pub body : Bool → ContractCall → Result Dict
unfolding raw_only raw_fields typed_fields with_value
body raw c =
    let start =
      entry "contractAddress" (str c.contract_address)
        (entry "chainId" (num (pos c.chain_id)) empty) in
    if raw || raw_only c
    then if has_data c
      then ok (with_value c (raw_fields c start))
      else err (value_error "raw body requested for a call without calldata")
    else ok (with_value c (typed_fields c start))

unfoldable pub label : ContractCall → String
label c =
    if is_text c.function_name
    then c.function_name
    else take 10 (if has_data c then get_or c.data_hex "" else "0x")

ether_of_a_thousandth : wei_to_ether_string (10 ^ 15) ≡ "0.001"
unfolding wei_to_ether_string show char_of
ether_of_a_thousandth = refl
