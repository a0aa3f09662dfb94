-- ===== src/Submitter/Logged.antt =====
-- A hash that is in the receipts file stays there, whatever the submitter does next.
use almanak_keeperhub.Prelude.{String, ◌≡◌, refl, ◌∙◌, inl, inr, some, Bool-cases}
use almanak_keeperhub.Python.Json.{Dict, str, find, update as update_dict, find-put}
use almanak_keeperhub.Effects.{File, ExecutionStatus, notify}
use almanak_keeperhub.Effects.Frame.{Frame}
use almanak_keeperhub.Receipts.{is_for, touch}
use almanak_keeperhub.Receipts.Entries.{
  Holds, Holding, Keeps-record_execution, Keeps-update, Keeps-modify,
}
use almanak_keeperhub.Submitter.Types.{remember}
use almanak_keeperhub.Submitter.Settle.{settlement}
use almanak_keeperhub.Submitter.Submit.{assign}
use almanak_keeperhub.Submitter.Frames.{Respects}

-- An entry for the hash.
abbrev pub HasHash : String → Dict → Type 0
HasHash hash e = find "tx_hash" e ≡ some (str hash)

-- The file is readable and holds an entry for the hash.
abbrev pub IsLogged : String → File → Type 0
IsLogged hash file = Holds (HasHash hash) file

abbrev pub Logs : String → Frame
Logs hash = Holding (HasHash hash)

-- A settlement writes no hash, so it leaves every entry's hash in place.
touch-hash :
    (id now : String) (status : ExecutionStatus) (e : Dict)
    → find "tx_hash" (touch id (settlement status) now e) ≡ find "tx_hash" e
unfolding touch settlement update_dict
touch-hash id now status e = elim (Bool-cases (is_for id e)) [
  | inl own ↦ rw own (simp find-put)
  | inr other ↦ rw other
]

pub logs-Respects : (hash : String) → Respects (Logs hash) (λ r. Unit)
unfolding remember assign notify
logs-Respects hash = record {
  client = λ A m k. record { at = λ h w p. rw (k.at h w).file p };
  polls = λ id. tt;
  remembers = λ key e. Keeps-modify (HasHash hash) _ (λ w. refl);
  notifies = λ a. record { at = λ h w p. p };
  assigns = λ key sent. Keeps-modify (HasHash hash) _ (λ w. refl);
  records = λ id fields. Keeps-record_execution (HasHash hash) id fields;
  settles =
      λ id status. Keeps-update (HasHash hash) id _ (λ now e p. touch-hash id now status e ∙ p);
}
