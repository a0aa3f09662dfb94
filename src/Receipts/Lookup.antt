-- ===== src/Receipts/Lookup.antt =====
-- What the log says after it is written to: the last entry for a hash wins, a settlement reaches
-- the entries of its execution only, and a file that is not JSON is never overwritten.
use almanak_keeperhub.Prelude.{
  String, ◌≡◌, refl, ap, ◌∙◌, Bool, true, false, Option, none, some, List, [], ◌∷◌, ◌++◌, map,
  if◌then◌else◌, str_eq, Bool-cases, inl, inr, ◌⊎◌, ◌↔◌, eq_iff, eq_refl, get_or, arith,
}
use almanak_keeperhub.Python.Text.{lower}
use almanak_keeperhub.Python.Json.{
  null, eq_str, Value, Dict, empty, entry, str, arr, find, put, update as update_dict,
  dicts-items_of, items_of, find-put, text_of,
}
use almanak_keeperhub.Errors.{Error, Result, ok, err}
use almanak_keeperhub.Effects.{
  World, Host, garbled, document, modify, pure, gets, asks, lift, continue, ◌>>=◌,
}
use almanak_keeperhub.Receipts.{
  parse, read, mutate, timestamp, execution_entry, record_execution, record_simulation, touch,
  update, find_last, has_hash, find_by_hash, is_for,
}

-- The call raises and leaves the state, the file included, as it was.
abbrev pub IsRefused : {A : Type 0} → World → Result A × World → Type 0
IsRefused w (ok a, v) = ⊥
IsRefused w (err e, v) = v ≡ w

mutated :
    (apply : List Dict → List Dict) (r : Result (List Dict)) (h : Host) (w : World) (e : Error)
    → r ≡ err e
    → IsRefused w (
        continue r
          (λ es. modify (λ v. record v { file = document (arr (items_of (apply es))) }))
          h
          w)
unfolding continue
mutated apply (ok es) h w e p = cc
mutated apply (err e') h w e p = refl

mutate-IsRefused :
    (apply : List Dict → List Dict) (h : Host) (w : World) (e : Error)
    → parse w.file ≡ err e
    → IsRefused w (mutate apply h w)
unfolding mutate gets lift continue ◌>>=◌
mutate-IsRefused apply h w e p = mutated apply (parse w.file) h w e p

-- A receipts file that is not JSON is never overwritten: no write to the log changes anything, and
-- each raises an exception.
pub garbled-IsRefused :
    (h : Host) (w : World) (id : String) (fields : Dict)
    → w.file ≡ garbled
    → IsRefused w (record_execution id fields h w)
      × IsRefused w (record_simulation fields h w)
      × IsRefused w (update id fields h w)
unfolding record_execution record_simulation update timestamp gets asks continue ◌>>=◌ parse
garbled-IsRefused h w id fields p = (
  mutate-IsRefused _ h w _ (ap parse p),
  mutate-IsRefused _ h w _ (ap parse p),
  mutate-IsRefused _ h w _ (ap parse p),
)

abbrev or_this : Bool → Dict → Option Dict → Option Dict
or_this b e found = elim found [ some d ↦ some d | none ↦ (if b then some e else none) ]

pub find_last-append :
    (test : Dict → Bool) (es : List Dict) (e : Dict)
    → find_last test (es ++ e ∷ []) ≡ (if test e then some e else find_last test es)
unfolding find_last
find_last-append test [] e = refl
find_last-append test (f ∷ es) e = elim (Bool-cases (test e)) [
  | inl wins ↦ rw (find_last-append test es e) (rw wins)
  | inr loses ↦ rw (find_last-append test es e) (rw loses)
]

abbrev map_option : (Dict → Dict) → Option Dict → Option Dict
map_option f none = none
map_option f (some e) = some (f e)

step-map :
    (f : Dict → Dict) (e : Dict) (b c : Bool) (found : Option Dict)
    → b ≡ c
    → or_this b (f e) (map_option f found) ≡ map_option f (or_this c e found)
step-map f e true true none p = refl
step-map f e true false none p = cc
step-map f e false true none p = cc
step-map f e false false none p = refl
step-map f e b c (some d) p = refl

find_last-map :
    (test : Dict → Bool) (f : Dict → Dict) (es : List Dict)
    → ((e : Dict) → test (f e) ≡ test e)
    → find_last test (map f es) ≡ map_option f (find_last test es)
unfolding find_last
find_last-map test f [] same = refl
find_last-map test f (e ∷ es) same =
    rw (find_last-map test f es same)
      (step-map f e (test (f e)) (test e) (find_last test es) (same e))

-- A dict that lacks a key leaves its value when it updates another.
skipped :
    (b : Bool) (v : Value) (o : Option Value)
    → (if b then some v else o) ≡ none
    → (b ≡ false) × (o ≡ none)
skipped true v o p = cc
skipped false v o p = (refl, p)

find-update : (k : String) (d e : Dict) → find k e ≡ none → find k (update_dict d e) ≡ find k d
unfolding update_dict find
find-update k d empty p = refl
find-update k d (entry j v e) p =
    let s = skipped (str_eq j k) v (find k e) p in
    find-update k (put j v d) e s.1 ∙ (find-put j k v d ∙ rw s.0)

abbrev Rewritten :
    (List Dict → List Dict) → Result (List Dict) → Host → World → Result (Unit {0}) × World
Rewritten apply r h w =
    continue r (λ es. modify (λ v. record v { file = document (arr (items_of (apply es))) })) h w

module _ (test : Host → Dict → Bool) (h : Host) (w : World) (before : Option Dict) where
  abbrev Found : Result (List Dict) → World → Result (Option Dict)
  Found r u = (continue r (λ es h' u'. (ok (find_last (test h') es), u')) h u).0

  appended :
      (e : Dict) (r : Result (List Dict)) (u : World)
      → Found r w ≡ ok before
      → Found (parse (Rewritten (λ es. es ++ e ∷ []) r h w).1.file) u
        ≡ ok (if test h e then some e else before)
  unfolding continue pure modify parse
  appended e (ok es) u p =
      rw (dicts-items_of (es ++ e ∷ [])) (rw (find_last-append (test h) es e) cc)
  appended e (err problem) u p = cc

  settled :
      (f : Dict → Dict) (r : Result (List Dict)) (u : World)
      → ((e : Dict) → test h (f e) ≡ test h e)
      → Found r w ≡ ok before
      → Found (parse (Rewritten (map f) r h w).1.file) u ≡ ok (map_option f before)
  unfolding continue pure modify parse
  settled f (ok es) u same p =
      rw (dicts-items_of (map f es)) (rw (find_last-map (test h) f es same) cc)
  settled f (err problem) u same p = cc

-- After an execution is recorded, a lookup by any hash gives the new entry if it has that hash,
-- however the cases of the letters differ, and what it gave before otherwise.
pub record_execution-find_by_hash :
    (h : Host) (w : World) (id hash : String) (fields : Dict) (before : Option Dict)
    → (find_by_hash hash h w).0 ≡ ok before
    → (find_by_hash hash h (record_execution id fields h w).1).0
      ≡ ok (
          if has_hash (text_of h.repr) hash (execution_entry id (h.isoformat w.clock) fields)
          then some (execution_entry id (h.isoformat w.clock) fields)
          else before)
unfolding find_by_hash read record_execution timestamp mutate gets asks lift continue pure ◌>>=◌
record_execution-find_by_hash h w id hash fields before p =
    appended (λ h'. has_hash (text_of h'.repr) hash) h w before _ (parse w.file) _ p

touch-find :
    (id now : String) (fields e : Dict)
    → find "tx_hash" fields ≡ none
    → find "tx_hash" (touch id fields now e) ≡ find "tx_hash" e
unfolding touch
touch-find id now fields e p = elim (Bool-cases (is_for id e)) [
  | inl own ↦ rw own (
      find-put "updated_at" "tx_hash" (str now) (update_dict e fields)
      ∙ find-update "tx_hash" e fields p)
  | inr other ↦ rw other
]

touch-has_hash :
    (show_value : Value → String) (hash id now : String) (fields e : Dict)
    → find "tx_hash" fields ≡ none
    → has_hash show_value hash (touch id fields now e) ≡ has_hash show_value hash e
touch-has_hash show_value hash id now fields e p =
    ap (λ o. str_eq (lower (elim o [ none ↦ "" | some v ↦ show_value v ])) (lower hash))
      (touch-find id now fields e p)

-- The entry after a settlement of an execution: the fields and the time are set if it has the
-- execution's identifier, and nothing is otherwise.
abbrev pub IsSettled : String → Dict → String → Dict → Dict → Type 0
IsSettled id fields now e e' =
    ((find "execution_id" e ≡ some (str id))
      × (e' ≡ put "updated_at" (str now) (update_dict e fields)))
    ⊎ (((find "execution_id" e ≡ some (str id)) → ⊥) × (e' ≡ e))

abbrev pub FoundSettled : String → Dict → String → Option Dict → Option Dict → Type 0
FoundSettled id fields now none after = after ≡ none
FoundSettled id fields now (some e) after =
    (e' : Dict) × (after ≡ some e') × IsSettled id fields now e e'

is_for-find :
    (id : String) (e : Dict) → (is_for id e ≡ true) ↔ (find "execution_id" e ≡ some (str id))
is_for-find id e = by_value (find "execution_id" e)
  where
    by_value : (o : Option Value) → (eq_str (get_or o null) id ≡ true) ↔ (o ≡ some (str id))
    by_value none = ((λ p. cc), (λ p. cc))
    by_value (some (str s)) = (
      (λ p. rw ((eq_iff s id).0 p) refl),
      (λ p. ap (λ o. eq_str (get_or o null) id) p ∙ eq_refl id),
    )
    by_value (some v) = ((λ p. cc), (λ p. absurd (ground (arith, p))))

touch-IsSettled :
    (id now : String) (fields e : Dict) → IsSettled id fields now e (touch id fields now e)
unfolding touch
touch-IsSettled id now fields e = elim (Bool-cases (is_for id e)) [
  | inl own ↦ inl ((is_for-find id e).0 own, rw own refl)
  | inr other ↦
      inr ((λ own. absurd (ground (arith, other, (is_for-find id e).1 own))), (rw other refl))
]

-- An update that sets no hash finds the same entry by each hash as before: with the fields and the
-- time of the update when it has the execution's identifier, and as it was otherwise.
pub update-find_by_hash :
    (h : Host) (w : World) (id hash : String) (fields : Dict) (before : Option Dict)
    → find "tx_hash" fields ≡ none
    → (find_by_hash hash h w).0 ≡ ok before
    → (after : Option Dict) × ((find_by_hash hash h (update id fields h w).1).0 ≡ ok after)
      × FoundSettled id fields (h.isoformat w.clock) before after
unfolding find_by_hash read update timestamp mutate gets asks lift continue pure ◌>>=◌
update-find_by_hash h w id hash fields before q p = (
  map_option (touch id fields (h.isoformat w.clock)) before,
  settled (λ h'. has_hash (text_of h'.repr) hash) h w before _ (parse w.file) _
      (λ e. touch-has_hash _ hash id _ fields e q) p,
  found before,
)
  where
    found :
        (before : Option Dict)
        → FoundSettled id fields
            (h.isoformat w.clock)
            before
            (map_option (touch id fields (h.isoformat w.clock)) before)
    found none = refl
    found (some e) = (touch id fields (h.isoformat w.clock) e, refl, touch-IsSettled id _ fields e)
