-- ===== src/ExitWorkflow/Tests.antt =====
-- An exit workflow, and a run that stops at its condition.
use almanak_keeperhub.Prelude.{refl, ◌≡◌, true, false, none, [], ◌∷◌}
use almanak_keeperhub.Python.Json.{null, str, arr, obj, nil, empty, text_of, find, put}
use almanak_keeperhub.Errors.{ok}
use almanak_keeperhub.Keeper.{fields}
use almanak_keeperhub.Keeper.Run.{RunResult, dict_of}
use almanak_keeperhub.ExitWorkflow.{ExitGuard}
use almanak_keeperhub.ExitWorkflow.Outcome.{
  GuardOutcome, report, ordered_lines, other_lines, has_redeem, reached_redeem, is_completed,
  guard_fields, guard_outcome,
}
use almanak_keeperhub.Python.Text.{show_ℤ}
use almanak_keeperhub.Keeper.Params.{iterated}
use almanak_keeperhub.ExitWorkflow.Reported.{IsFaithful, guard_outcome-IsFaithful}

abbrev exit_guard : ExitGuard
exit_guard = record {
  vault = "0xVaultVault";
  chain_id = 84532;
  wallet = "0xWallet";
  share_symbol = "SHARES";
  name = none;
}

abbrev stopped : RunResult
stopped = record {
  execution_id = "run-1";
  status = str "success";
  error = null;
  transaction_hashes = arr nil;
  trace = arr nil;
  node_statuses =
      fields (("nodeId", str "gate") ∷ ("status", str "success") ∷ [])
      ∷ fields (("nodeId", str "shares") ∷ ("status", str "success") ∷ [])
      ∷ fields (("nodeId", str "trigger") ∷ ("status", str "success") ∷ [])
      ∷ [];
  progress = obj empty;
  started_at = null;
  completed_at = null;
}

abbrev outcome : GuardOutcome
outcome = record {
  executed = false;
  stopped_at_gate = true;
  status = "success";
  trace = "trigger:success" ∷ "shares:success" ∷ "gate:success" ∷ [];
  steps = "3 of 4";
  transactions = arr nil;
  error = null;
}

stopped-outcome : guard_outcome (λ v. "") stopped ≡ ok outcome
unfolding guard_outcome report find put text_of ordered_lines other_lines has_redeem reached_redeem
    iterated dict_of guard_fields is_completed show_ℤ
stopped-outcome = refl

guard_outcome-IsFaithful_example : IsFaithful (text_of (λ v. "")) stopped outcome
guard_outcome-IsFaithful_example =
    guard_outcome-IsFaithful (λ v. "") stopped outcome stopped-outcome
