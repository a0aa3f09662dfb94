-- ===== src/Client/Bodies.antt =====
-- client.py: what `ContractCall.body` tells KeeperHub of a call.
use almanak_keeperhub.Prelude.{
  String, ◌≡◌, refl, sym, ◌⊎◌, inl, inr, Bool, true, none, some, arith, ◌||◌, ◌==◌, if◌then◌else◌,
  get_or, Bool-cases, str_eq, ◌∙◌,
}
use almanak_keeperhub.Prelude.Int.{pos}
use almanak_keeperhub.Python.Json.{Dict, entry, empty, num, str, arr, find, put, truthy, find-put}
use almanak_keeperhub.Python.Dumps.{dumps}
use almanak_keeperhub.Errors.{ok}
use almanak_keeperhub.Client.Calls.{ContractCall, has_data, raw_only, wei_to_ether_string, body}

-- The calldata, or the function with its arguments and its ABI.
abbrev pub Spells : ContractCall → Dict → Type 0
Spells c d =
    ((has_data c ≡ true) × (find "data" d ≡ some (str (get_or c.data_hex ""))))
    ⊎ ((find "functionName" d ≡ some (str c.function_name))
        × (find "functionArgs" d ≡ some (str (dumps (arr c.function_args))))
        × (find "abi" d ≡ some (str (dumps (arr c.abi)))))

-- A body that makes the call for real: its contract, its chain, its function or calldata and its
-- value.
pub record Carries (c : ContractCall) (d : Dict) : Type 0 where
  pub contract : find "contractAddress" d ≡ some (str c.contract_address)
  pub chain : find "chainId" d ≡ some (num (pos c.chain_id))
  pub spelled : Spells c d
  pub value :
      find "value" d
      ≡ (if c.value_wei == 0 then none else some (str (wei_to_ether_string c.value_wei)))
  pub real : find "simulate" d ≡ none

module _ (c : ContractCall) (d : Dict) where
  with_value-Carries :
      (b : Dict)
      → find "contractAddress" b ≡ some (str c.contract_address)
      → find "chainId" b ≡ some (num (pos c.chain_id))
      → Spells c b
      → find "value" b ≡ none
      → find "simulate" b ≡ none
      → ok (if c.value_wei == 0 then b else put "value" (str (wei_to_ether_string c.value_wei)) b)
        ≡ ok d
      → Carries c d
  with_value-Carries b contract chain spelled value real e = elim (Bool-cases (c.value_wei == 0)) [
    | inl z ↦
        let same : b ≡ d = ground (arith, e, z) in
        rw (sym same) record {
          contract = contract;
          chain = chain;
          spelled = spelled;
          value = rw z value;
          real = real;
        }
    | inr z ↦
        let v = str (wei_to_ether_string c.value_wei) in
        let same : put "value" v b ≡ d = ground (arith, e, z) in
        let other : (k : String)
            → find k (put "value" v b) ≡ (if str_eq "value" k then some v else find k b) =
          λ k. find-put "value" k v b in
        rw (sym same) record {
          contract = other "contractAddress" ∙ contract;
          chain = other "chainId" ∙ chain;
          spelled = elim spelled [
            | inl (h, text) ↦ inl (h, other "data" ∙ text)
            | inr (name, args, abi) ↦
                inr (other "functionName" ∙ name, other "functionArgs" ∙ args, other "abi" ∙ abi)
          ];
          value = rw z (other "value");
          real = other "simulate" ∙ real;
        }
  ]

abbrev start : ContractCall → Dict
start c =
    entry "contractAddress" (str c.contract_address) (entry "chainId" (num (pos c.chain_id)) empty)

abbrev with_data : ContractCall → Dict
with_data c = put "data" (str (get_or c.data_hex "")) (start c)

-- The body of a call says all of the call, whichever way it spells it.
pub body-Carries : (raw : Bool) (c : ContractCall) (d : Dict) → body raw c ≡ ok d → Carries c d
unfolding body find put
body-Carries raw c d e = elim (Bool-cases (raw || raw_only c)) [
  | inl r ↦ elim (Bool-cases (has_data c)) [
    | inl h ↦ elim (Bool-cases (truthy (arr c.abi))) [
      | inl t ↦
          with_value-Carries c d (put "abi" (str (dumps (arr c.abi))) (with_data c)) refl refl
            (inl (h, refl)) refl refl (rw t at (rw h at (rw r at e)))
      | inr t ↦
          with_value-Carries c d (with_data c) refl refl (inl (h, refl)) refl refl
            (rw t at (rw h at (rw r at e)))
    ]
    | inr h ↦ absurd (ground (arith, e, r, h))
  ]
  | inr r ↦
      with_value-Carries c d
        (put "abi" (str (dumps (arr c.abi))) (
          put "functionArgs" (str (dumps (arr c.function_args)))
            (put "functionName" (str c.function_name) (start c))))
        refl refl (inr (refl, refl, refl)) refl refl (rw r at e)
]
