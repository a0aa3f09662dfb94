-- ===== src/Signer/Keys.antt =====
-- almanak_keeperhub/signer.py: when two transactions get the same idempotency key.
use Prim.Native.String.{◌++◌}
use text.Mathlib.TextLemmas.{append_cancel_left, append_cancel_right}
use almanak_keeperhub.Prelude.{String, ◌≡◌, refl, ap, ◌∙◌, sym, ◌↔◌, List, [], ◌∷◌}
use almanak_keeperhub.Python.Text.{lower, show}
use almanak_keeperhub.Signer.{
  UnsignedTransaction, text_of_to, data_or_0x, value_or_0, key_version, join_bar, key_parts,
  joined_parts, idempotency_key_for,
}

-- Two transactions ask two senders for one call: they differ in the nonce at most, and in the
-- cases of the letters.
pub record IsSameCall (tx tx' : UnsignedTransaction) (from_address from_address' : String)
    : Type 0 where
  pub chain_id : tx.chain_id ≡ tx'.chain_id
  pub sender : lower from_address ≡ lower from_address'
  pub to : lower (text_of_to tx.to) ≡ lower (text_of_to tx'.to)
  pub data_hex : lower (data_or_0x tx.data_hex) ≡ lower (data_or_0x tx'.data_hex)
  pub value : value_or_0 tx.value ≡ value_or_0 tx'.value

-- A text behind the parts before it.
behind : List String → String → String
behind [] s = s
behind (p ∷ parts) s = p ++ "|" ++ behind parts s

behind_cancel : (parts : List String) (s t : String) → behind parts s ≡ behind parts t → s ≡ t
unfolding behind
behind_cancel [] s t h = h
behind_cancel (p ∷ parts) s t h = behind_cancel parts s t (
    append_cancel_left "|" (behind parts s) (behind parts t)
      (append_cancel_left p ("|" ++ behind parts s) ("|" ++ behind parts t) h))

call_parts : UnsignedTransaction → String → List String
call_parts tx sender =
    key_version
    ∷ show tx.chain_id
    ∷ lower sender
    ∷ lower (text_of_to tx.to)
    ∷ lower (data_or_0x tx.data_hex)
    ∷ show (value_or_0 tx.value)
    ∷ []

joined_parts-behind :
    (tx : UnsignedTransaction) (sender work_id salt : String)
    → joined_parts tx sender work_id salt ≡ behind (call_parts tx sender) (work_id ++ "|" ++ salt)
unfolding joined_parts join_bar key_parts behind call_parts
joined_parts-behind tx sender work_id salt = refl

call_parts_same :
    (tx tx' : UnsignedTransaction) (sender sender' : String)
    → IsSameCall tx tx' sender sender'
    → call_parts tx sender ≡ call_parts tx' sender'
unfolding call_parts
call_parts_same tx tx' sender sender' h = rw (h.chain_id, h.sender, h.to, h.data_hex, h.value) refl

module _ (tx tx' : UnsignedTransaction) (sender sender' : String)
    (same : IsSameCall tx tx' sender sender') (salt : String) where
  joined_parts_same : (w : String) → joined_parts tx sender w salt ≡ joined_parts tx' sender' w salt
  joined_parts_same w =
      joined_parts-behind tx sender w salt
      ∙ (ap (λ parts. behind parts (w ++ "|" ++ salt)) (call_parts_same tx tx' sender sender' same)
          ∙ sym (joined_parts-behind tx' sender' w salt))

  joined_parts_cancel :
      (w w' : String) → joined_parts tx sender w salt ≡ joined_parts tx' sender' w' salt → w ≡ w'
  joined_parts_cancel w w' h = append_cancel_right w w' ("|" ++ salt) (
      behind_cancel (call_parts tx' sender') (w ++ "|" ++ salt) (w' ++ "|" ++ salt) (
        sym (joined_parts-behind tx' sender' w salt)
        ∙ (sym (joined_parts_same w) ∙ (h ∙ joined_parts-behind tx' sender' w' salt))))

-- An idempotency key identifies the work, not the attempt: two attempts at one call, whose nonces
-- and letters' cases may differ, get the same key exactly if they are for the same work, provided
-- that sha256 does not collide on the two texts that it digests.
pub idempotency_key_for-identifies :
    (sha256 : String → String) (tx tx' : UnsignedTransaction) (sender sender' w w' salt : String)
    → IsSameCall tx tx' sender sender'
    → (sha256 (joined_parts tx sender w salt) ≡ sha256 (joined_parts tx' sender' w' salt)
        → joined_parts tx sender w salt ≡ joined_parts tx' sender' w' salt)
    → (idempotency_key_for sha256 tx sender w salt ≡ idempotency_key_for sha256 tx' sender' w' salt)
      ↔ (w ≡ w')
unfolding idempotency_key_for
idempotency_key_for-identifies sha256 tx tx' sender sender' w w' salt same no_collision = (
  (λ h. joined_parts_cancel tx tx' sender sender' same salt w w' (no_collision h)),
  (λ e. ap sha256 (
      joined_parts_same tx tx' sender sender' same salt w
      ∙ ap (λ v. joined_parts tx' sender' v salt) e)),
)
