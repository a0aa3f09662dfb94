-- ===== src/Receipts.antt =====
-- receipts.py: the append-only log of executions and dry runs. The lock makes each read and each
-- read-modify-write one step.
pub mod Lookup
pub mod Entries
pub mod Quiet
pub mod Merge
pub mod Union
pub mod Tests
use Prim.Native.Nat.{Ordering}
use Prim.Native.String.{compare}
use almanak_keeperhub.Prelude.{
  ℕ, String, Bool, true, false, not, ◌&&◌, Option, none, some, List, [], ◌∷◌, ◌++◌, map,
  if◌then◌else◌, str_eq, get_or,
}
use almanak_keeperhub.Python.Text.{lower, is_text}
use almanak_keeperhub.Python.Json.{
  Value, Dict, null, str, arr, empty, entry, truthy, find, get, put, update as update_dict, dicts,
  items_of, eq_str, text_of,
}
use almanak_keeperhub.Errors.{Result, ok, err, value_error}
use almanak_keeperhub.Effects.{
  World, File, missing, blank, garbled, document, Action, pure, lift, gets, asks, modify, ◌>>=◌,
}

-- `_parse`
unfoldable pub parse : File → Result (List Dict)
parse missing = ok []
parse blank = ok []
parse garbled = err (
    value_error
      "the receipts file is not valid JSON and holds proof and resume data; not overwriting it")
parse (document (arr vs)) = ok (dicts vs)
parse (document v) = ok []

-- `_read`
unfoldable pub read : Action (List Dict)
read = do file ← gets (λ w. w.file); lift (parse file)

-- `_mutate`
unfoldable pub mutate : (List Dict → List Dict) → Action Unit
mutate apply = do
  file ← gets (λ w. w.file)
  entries ← lift (parse file)
  modify (λ w. record w { file = document (arr (items_of (apply entries))) })

-- `datetime.now(UTC).isoformat()`
unfoldable pub timestamp : Action String
timestamp = do now ← gets (λ w. w.clock); asks (λ h. h.isoformat now)

unfoldable pub execution_entry : String → String → Dict → Dict
execution_entry execution_id recorded_at fields =
    update_dict
      (entry "execution_id" (str execution_id) (entry "recorded_at" (str recorded_at) empty)) fields

-- `ReceiptLog.record`
unfoldable pub record_execution : String → Dict → Action Unit
record_execution execution_id fields = do
  now ← timestamp
  mutate (λ entries. entries ++ execution_entry execution_id now fields ∷ [])

unfoldable pub record_simulation : Dict → Action Unit
record_simulation fields = do
  now ← timestamp
  mutate λ entries.
      entries
      ++ update_dict (entry "type" (str "simulation") (entry "recorded_at" (str now) empty)) fields
        ∷ []

-- `entry.get("execution_id") == execution_id`
abbrev pub is_for : String → Dict → Bool
is_for execution_id e = eq_str (get "execution_id" e) execution_id

unfoldable pub touch : String → Dict → String → Dict → Dict
touch execution_id fields now e =
    if is_for execution_id e then put "updated_at" (str now) (update_dict e fields) else e

-- `ReceiptLog.update`
unfoldable pub update : String → Dict → Action Unit
update execution_id fields = do now ← timestamp; mutate (map (touch execution_id fields now))

-- `str(entry.get(key, ""))`
abbrev pub printed : (Value → String) → String → Dict → String
printed show_value key e = elim (find key e) [ none ↦ "" | some v ↦ show_value v ]

-- The last entry of the list that passes the test: the first of the reversed list.
unfoldable pub find_last : (Dict → Bool) → List Dict → Option Dict
find_last test [] = none
find_last test (e ∷ es) = elim (find_last test es) [
  | some found ↦ some found
  | none ↦ (if test e then some e else none)
]

-- `str(entry.get("tx_hash", "")).lower() == wanted`
abbrev pub has_hash : (Value → String) → String → Dict → Bool
has_hash show_value tx_hash e = str_eq (lower (printed show_value "tx_hash" e)) (lower tx_hash)

-- `ReceiptLog.find_by_hash`
unfoldable pub find_by_hash : String → Action (Option Dict)
find_by_hash tx_hash = do
  entries ← read
  repr ← asks (λ h. h.repr)
  pure (find_last (has_hash (text_of repr) tx_hash) entries)

-- `s >= t` on texts.
abbrev pub at_least : String → String → Bool
at_least s t = elim (compare s t) [ Ordering.lt ↦ false | _ ↦ true ]

unfoldable pub keep : (Dict → Bool) → List Dict → List Dict
keep test [] = []
keep test (e ∷ es) = let rest = keep test es in if test e then e ∷ rest else rest

-- `ReceiptLog.entries_since`
unfoldable pub entries_since : String → Action (List Dict)
entries_since iso_timestamp = do
  entries ← read
  repr ← asks (λ h. h.repr)
  pure (keep (λ e. at_least (printed (text_of repr) "recorded_at" e) iso_timestamp) entries)

-- `entry_key`
unfoldable pub entry_key : (Value → String) → Dict → String
entry_key show_value e =
    let id = get "execution_id" e in
    let hash = get "tx_hash" e in
    let at = get "recorded_at" e in
    if truthy id
    then show_value id
    else if truthy hash
    then show_value hash
    else if truthy at
    then show_value at
    else ""
