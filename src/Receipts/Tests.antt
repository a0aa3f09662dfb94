-- ===== src/Receipts/Tests.antt =====
-- The union of a strategy's log and the log of a failure demo, with an execution that both hold.
use almanak_keeperhub.Prelude.{String, ◌≡◌, refl, List, [], ◌∷◌}
use almanak_keeperhub.Python.Json.{
  Value, Dict, str, arr, obj, nil, cons, empty, entry, text_of, find, put, dicts,
}
use almanak_keeperhub.Errors.{ok}
use almanak_keeperhub.Effects.{File, document, blank}
use almanak_keeperhub.Effects.Frame.{Outcome}
use almanak_keeperhub.Receipts.{parse, entry_key}
use almanak_keeperhub.Receipts.Merge.{
  tag, newer, place, absorb, insert, sort, merge_from, merge_logs,
}
use almanak_keeperhub.Receipts.Union.{HasKey, IsDistinct, Logged, merge_logs-IsUnion}

abbrev broadcast : Dict
broadcast = entry "execution_id" (str "exec-1") (entry "recorded_at" (str "2026-01-02") empty)

abbrev settled : Dict
settled =
    entry "execution_id" (str "exec-1")
      (entry "recorded_at" (str "2026-01-02") (entry "updated_at" (str "2026-01-03") empty))

abbrev refused : Dict
refused = entry "tx_hash" (str "0xAB") (entry "recorded_at" (str "2026-01-01") empty)

abbrev logs : List (String × File)
logs =
    ("strategy", document (arr (cons (obj broadcast) nil)))
    ∷ ("failure-modes", document (arr (cons (obj settled) (cons (obj refused) nil))))
    ∷ ("", blank)
    ∷ []

abbrev show_value : Value → String
show_value = text_of (λ v. "")

merged :
    merge_logs show_value logs
    ≡ ok (
        put "source" (str "failure-modes") refused
        ∷ put "source" (str "failure-modes") settled
        ∷ [])
unfolding merge_logs merge_from parse dicts absorb tag find put place newer sort insert entry_key
    text_of
merged = refl

merge_logs-IsUnion_example :
    Outcome
      (λ es.
        IsDistinct show_value es
        × ((key : String) → Logged show_value key logs → HasKey show_value key es))
      (λ e. Unit)
      (merge_logs show_value logs)
merge_logs-IsUnion_example = merge_logs-IsUnion show_value logs
