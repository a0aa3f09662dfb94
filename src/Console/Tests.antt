-- ===== src/Console/Tests.antt =====
-- The page of a receipts file with a dry run and an execution.
use almanak_keeperhub.Prelude.{String, ◌≡◌, refl, true, none, some, [], ◌∷◌}
use almanak_keeperhub.Python.Json.{Value, Dict, bool, str, arr, obj, nil, cons, find, put, dicts}
use almanak_keeperhub.Errors.{ok}
use almanak_keeperhub.Keeper.{fields}
use almanak_keeperhub.Keeper.Params.{iterated}
use almanak_keeperhub.Receipts.{keep}
use almanak_keeperhub.Console.{
  State, explorer, outcome_of, execution_row, execution_rows, insert_row, newest_first, count,
  rows_in, document_in, summary_of, first_rows, state_from, build_state,
}
use almanak_keeperhub.Console.Accounted.{IsAccounted, build_state-IsAccounted}

abbrev pub dry_run : Dict
dry_run = fields (("type", str "simulation") ∷ ("success", bool true) ∷ [])

abbrev pub execution : Dict
execution = fields (("status", str "completed") ∷ ("transaction_link", str "https://x/tx/1") ∷ [])

abbrev receipts : Value
receipts = arr (cons (obj dry_run) (cons (obj execution) nil))

abbrev show_text : Value → String
show_text v = elim v [ str s ↦ s | _ ↦ "" ]

abbrev pub page : State
page = record {
  summary = record {
    executions = 1;
    verified = 0;
    replays = 0;
    sponsored = 0;
    in_flight = 0;
    failed = 0;
    refused_before_broadcast = 0;
    dry_runs = 1;
    dry_run_refusals = 0;
  };
  executions =
      fields (
        ("status", str "completed")
        ∷ ("transaction_link", str "https://x/tx/1")
        ∷ ("explorer", str "https://x/tx/1")
        ∷ ("outcome", str "ok")
        ∷ [])
      ∷ [];
  simulations = dry_run ∷ [];
  failure_modes = [];
  benchmark = none;
  api_features = none;
  conformance = none;
}

receipts-rows : rows_in (some receipts) ≡ ok (dry_run ∷ execution ∷ [])
unfolding rows_in iterated dicts
receipts-rows = refl

receipts-page : build_state show_text (some receipts) none none none none ≡ ok page
unfolding build_state state_from summary_of rows_in iterated dicts keep find put newest_first
    insert_row execution_rows execution_row explorer outcome_of count first_rows document_in
receipts-page = refl

build_state-IsAccounted_example : IsAccounted show_text (dry_run ∷ execution ∷ []) page
build_state-IsAccounted_example =
    build_state-IsAccounted show_text (some receipts) none none none none (dry_run ∷ execution ∷ [])
      page receipts-rows receipts-page
