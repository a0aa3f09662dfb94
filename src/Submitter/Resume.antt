-- ===== src/Submitter/Resume.antt =====
-- A process that restarts after a broadcast finds the execution again in the receipts file.
use almanak_keeperhub.Prelude.{
  String, ◌≡◌, refl, sym, ap, ◌∙◌, true, none, some, List, [], ◌∷◌, ◌++◌, str_eq, eq_refl,
}
use almanak_keeperhub.Python.Text.{lower}
use almanak_keeperhub.Python.Json.{
  Value, Dict, str, arr, find, put, update as update_dict, dicts-items_of, items_of, text_of,
}
use almanak_keeperhub.Errors.{Result, ok, err}
use almanak_keeperhub.Effects.{
  Alert, World, Host, File, document, Action, Execution, ExecutionEnvelope, settled, pending,
  modify, notify, pure, gets, asks, lift, continue, ◌>>=◌,
}
use almanak_keeperhub.Effects.Triple.{Left, Triple, Triple-bind, Triple-any}
use almanak_keeperhub.Client.Calls.{ContractCall}
use almanak_keeperhub.Receipts.{
  parse, read, mutate, timestamp, execution_entry, record_execution, find_last, has_hash,
  find_by_hash,
}
use almanak_keeperhub.Receipts.Lookup.{find_last-append}
use almanak_keeperhub.Submitter.Types.{Settings, lookup, remember}
use almanak_keeperhub.Submitter.Settle.{
  recorded_id, resumed, from_log, known_or_logged, execution_for,
}
use almanak_keeperhub.Submitter.Submit.{assign, broadcast_fields, keep_hash}

-- The file's last entry is the execution's.
abbrev EndsWith : String → Dict → File → Type 0
EndsWith id fields file =
    (es : List Dict) × (now : String) × (parse file ≡ ok (es ++ execution_entry id now fields ∷ []))

module _ (id : String) (fields : Dict) where
  abbrev Recorded : Unit {0} → World → Type 0
  Recorded u w = EndsWith id fields w.file

  appended :
      (now : String) (r : Result (List Dict)) (h : Host) (w : World)
      → Left Recorded
          (continue r
            (λ es. modify (λ v. record v {
              file = document (arr (items_of (es ++ execution_entry id now fields ∷ [])));
            }))
            h
            w).0
          (continue r
            (λ es. modify (λ v. record v {
              file = document (arr (items_of (es ++ execution_entry id now fields ∷ [])));
            }))
            h
            w).1
  unfolding continue modify parse
  appended now (ok es) h w =
      (es, now, ap ok (dicts-items_of (es ++ execution_entry id now fields ∷ [])))
  appended now (err problem) h w = tt

  mutate-Recorded :
      (now : String)
      → Triple (λ w. Unit) (mutate (λ es. es ++ execution_entry id now fields ∷ [])) Recorded
  unfolding mutate gets lift continue ◌>>=◌
  mutate-Recorded now = record { at = λ h w _. appended now (parse w.file) h w }

  record_execution-Recorded : Triple (λ w. Unit) (record_execution id fields) Recorded
  unfolding record_execution
  record_execution-Recorded = Triple-bind (Triple-any timestamp) mutate-Recorded

told :
    (id : String) (fields : Dict) (u : Unit {0}) (a : Alert)
    → Triple (Recorded id fields u) (notify a) (Recorded id fields)
unfolding notify
told id fields u a = record { at = λ h w p. p }

keep_hash-Recorded :
    (call : ContractCall) (key hash : String) (envelope : ExecutionEnvelope)
    → Triple
        (λ w. Unit)
        (keep_hash call key hash envelope)
        (Recorded envelope.execution_id (broadcast_fields call key hash envelope))
unfolding keep_hash
keep_hash-Recorded call key hash envelope = Triple-bind (Triple-any (assign key hash)) λ _.
    Triple-bind (Triple-any _) λ _. Triple-bind (record_execution-Recorded _ _) (λ u. told _ _ u _)

-- A pending execution under this identifier and for this hash.
abbrev pub IsPending : String → String → Result Execution → Type 0
IsPending id hash (ok (pending e)) = (e.execution_id ≡ id) × (e.transaction_hash ≡ some hash)
IsPending id hash (ok (settled status)) = ⊥
IsPending id hash (err e) = ⊥

-- The state of a new process: the file is there, the memory is empty.
abbrev pub restarted : World → World
restarted w = record w { executions = [] }

continue-ok :
    {A B : Type 0} (r : Result A) (a : A) (f : A → Action B) (h : Host) (w : World)
    (P : Result B → Type 0)
    → r ≡ ok a
    → P (f a h w).0
    → P (continue r f h w).0
unfolding continue
continue-ok r a f h w P e p = rw e p

fields_hash :
    (call : ContractCall) (key hash id now : String) (envelope : ExecutionEnvelope)
    → find "tx_hash" (execution_entry id now (broadcast_fields call key hash envelope))
      ≡ some (str hash)
unfolding execution_entry broadcast_fields update_dict put find
fields_hash call key hash id now envelope = refl

fields_id :
    (call : ContractCall) (key hash id now : String) (envelope : ExecutionEnvelope)
    → find "execution_id" (execution_entry id now (broadcast_fields call key hash envelope))
      ≡ some (str id)
unfolding execution_entry broadcast_fields update_dict put find
fields_id call key hash id now envelope = refl

own :
    (show_value : Value → String) (hash wanted id now : String) (call : ContractCall) (key : String)
    (envelope : ExecutionEnvelope)
    → lower wanted ≡ lower hash
    → (e : Dict) → execution_entry id now (broadcast_fields call key hash envelope) ≡ e
    → has_hash (text_of show_value) wanted e ≡ true
unfolding text_of
own show_value hash wanted id now call key envelope same e p =
    ap (λ o. str_eq (lower (elim o [ none ↦ "" | some v ↦ text_of show_value v ])) (lower wanted))
      (sym (ap (find "tx_hash") p) ∙ fields_hash call key hash id now envelope)
    ∙ shown
  where
    shown : str_eq (lower hash) (lower wanted) ≡ true
    shown = rw same (eq_refl (lower hash))

found :
    (hash wanted id now : String) (es : List Dict) (call : ContractCall) (key : String)
    (envelope : ExecutionEnvelope) (h : Host) (w : World)
    → parse w.file
      ≡ ok (es ++ execution_entry id now (broadcast_fields call key hash envelope) ∷ [])
    → lower wanted ≡ lower hash
    → (find_by_hash wanted h w).0
      ≡ ok (some (execution_entry id now (broadcast_fields call key hash envelope)))
unfolding find_by_hash read gets lift asks pure continue ◌>>=◌
found hash wanted id now es call key envelope h w p same =
    continue-ok (parse w.file) _
      (λ es' h' u'. (ok (find_last (has_hash (text_of h'.repr) wanted) es'), u')) h w
      (λ r. r ≡ ok (some (execution_entry id now (broadcast_fields call key hash envelope)))) p
      (ap ok (
        find_last-append (has_hash (text_of h.repr) wanted) es _
        ∙ rw (own h.repr hash wanted id now call key envelope same _ refl) refl))

from_log-IsPending :
    (s : Settings) (h : Host) (w : World) (wanted id : String) (recorded : Dict)
    → find "execution_id" recorded ≡ some (str id)
    → IsPending id wanted (from_log s wanted (some recorded) h w).0
unfolding from_log asks lift remember modify pure recorded_id resumed continue text_of ◌>>=◌
from_log-IsPending s h w wanted id recorded p = rw p (refl, refl)

execution_for-IsPending :
    (s : Settings) (h : Host) (v : World) (wanted : String) (call : ContractCall)
    (key hash : String) (envelope : ExecutionEnvelope)
    → lower wanted ≡ lower hash
    → EndsWith envelope.execution_id (broadcast_fields call key hash envelope) v.file
    → IsPending envelope.execution_id wanted (execution_for s wanted h (restarted v)).0
unfolding execution_for gets lookup known_or_logged continue ◌>>=◌
execution_for-IsPending s h v wanted call key hash envelope same (es, now, p) =
    continue-ok (find_by_hash wanted h (restarted v)).0 _ (from_log s wanted) h
      (find_by_hash wanted h (restarted v)).1 (IsPending envelope.execution_id wanted)
      (found hash wanted envelope.execution_id now es call key envelope h (restarted v) p same)
      (from_log-IsPending s h _ wanted envelope.execution_id _
        (fields_id call key hash _ now envelope))

-- Once `submit` has kept a hash, a process that starts with an empty memory finds the execution by
-- that hash, however the cases of its letters are written: it is pending, under the identifier
-- that KeeperHub answered.
pub keep_hash-execution_for :
    (s : Settings) (h : Host) (w : World) (call : ContractCall) (key hash wanted : String)
    (envelope : ExecutionEnvelope)
    → lower wanted ≡ lower hash
    → Left
        (λ _ v. IsPending envelope.execution_id wanted (execution_for s wanted h (restarted v)).0)
        (keep_hash call key hash envelope h w).0
        (keep_hash call key hash envelope h w).1
keep_hash-execution_for s h w call key hash wanted envelope same =
    kept (keep_hash call key hash envelope h w).0 _
      ((keep_hash-Recorded call key hash envelope).at h w tt)
  where
    kept :
        (r : Result (Unit {0})) (v : World)
        → Left (Recorded envelope.execution_id (broadcast_fields call key hash envelope)) r v
        → Left
            (λ _ v.
              IsPending envelope.execution_id wanted (execution_for s wanted h (restarted v)).0)
            r
            v
    kept (ok u) v p = execution_for-IsPending s h v wanted call key hash envelope same p
    kept (err e) v p = tt
