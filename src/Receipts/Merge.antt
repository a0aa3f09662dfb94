-- ===== src/Receipts/Merge.antt =====
-- receipts.py: `merge_logs`. A log is given with the source that `source_of` names it by.
use almanak_keeperhub.Prelude.{String, Bool, not, ◌&&◌, List, [], ◌∷◌, if◌then◌else◌, str_eq}
use almanak_keeperhub.Python.Text.{is_text}
use almanak_keeperhub.Python.Json.{Value, Dict, str, truthy, get, put}
use almanak_keeperhub.Errors.{Result, ok, err}
use almanak_keeperhub.Effects.{File}
use almanak_keeperhub.Receipts.{parse, entry_key, printed, at_least}

-- An entry without a source takes its log's.
unfoldable pub tag : String → Dict → Dict
tag source e =
    if not (truthy (get "source" e)) && is_text source then put "source" (str source) e else e

-- `merged`, in the order of its keys' first entries.
abbrev pub Merged : Type 0
Merged = List (String × Dict)

module _ (show_value : Value → String) where
  unfoldable pub newer : Dict → Dict → Bool
  newer e previous =
      at_least (printed show_value "updated_at" e) (printed show_value "updated_at" previous)

  unfoldable pub place : String → Dict → Merged → Merged
  place key e [] = (key, e) ∷ []
  place key e ((k, previous) ∷ rest) =
      let later = place key e rest in
      if str_eq k key
      then (k, (if newer e previous then e else previous)) ∷ rest
      else (k, previous) ∷ later

  unfoldable pub absorb : String → List Dict → Merged → Merged
  unfolding tag place
  absorb source [] merged = merged
  absorb source (e ∷ es) merged =
      absorb source es (place (entry_key show_value (tag source e)) (tag source e) merged)

  -- `sorted(..., key=recorded_at)`: a stable sort, which puts an entry in front of its equals that
  -- follow.
  unfoldable pub insert : Dict → List Dict → List Dict
  insert e [] = e ∷ []
  insert e (d ∷ ds) =
      let rest = insert e ds in
      if at_least (printed show_value "recorded_at" d) (printed show_value "recorded_at" e)
      then e ∷ d ∷ ds
      else d ∷ rest

  unfoldable pub sort : Merged → List Dict
  unfolding insert
  sort [] = []
  sort ((k, e) ∷ rest) = insert e (sort rest)

  unfoldable pub merge_from : List (String × File) → Merged → Result (List Dict)
  unfolding sort absorb
  merge_from [] merged = ok (sort merged)
  merge_from ((source, file) ∷ logs) merged = elim (parse file) [
    | ok entries ↦ merge_from logs (absorb source entries merged)
    | err e ↦ err e
  ]

  unfoldable pub merge_logs : List (String × File) → Result (List Dict)
  unfolding merge_from
  merge_logs logs = merge_from logs []
