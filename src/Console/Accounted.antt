-- ===== src/Console/Accounted.antt =====
-- console/server.py: the page accounts for each row of the receipts file.
use mathlib.Core.List.{Memᴰ}
use mathlib.Core.List.Memᴰ
use almanak_keeperhub.Prelude.{
  ℕ, suc, ◌+◌, ◌≤◌, String, ◌≡◌, refl, sym, ◌∙◌, ap, ◌⊎◌, inl, inr, Bool, true, false, not, Option,
  List, [], ◌∷◌, arith, str_eq, eq_iff, if◌then◌else◌, length, any, Bool-cases, get_or,
}
use almanak_keeperhub.Python.Json.{null, Value, Dict, str, find, get, put, find-put}
use almanak_keeperhub.Errors.{ok, ok-steps}
use almanak_keeperhub.Client.Answers.{or_value}
use almanak_keeperhub.Receipts.{at_least, printed, keep}
use almanak_keeperhub.Console.{
  State, explorer, outcome_of, execution_row, execution_rows, insert_row, newest_first,
  is_simulation, count, rows_in, has_outcome, summary_of, state_from, build_state,
}

-- A row keeps its entry but for the three fields that are set.
abbrev pub Shows : Dict → Dict → Type 0
Shows e row =
    (k : String)
    → any (str_eq k) ("status" ∷ "explorer" ∷ "outcome" ∷ []) ≡ false
    → find k row ≡ find k e

abbrev IsSortedOut : Dict → Type 0
IsSortedOut row = (status : String) × (get "outcome" row ≡ str (outcome_of status))

module _ (p : Dict → Bool) where
  length-keep : (l : List Dict) → length (keep p l) + length (keep (λ e. not (p e)) l) ≡ length l
  unfolding keep
  length-keep [] = refl
  length-keep (e ∷ es) = ground (arith, length-keep es)

  under :
      (d : Dict) {e : Dict} {l : List Dict} (b : Bool) → Memᴰ e l → Memᴰ e (if b then d ∷ l else l)
  under d true m = Memᴰ.tail m
  under d false m = m

  keep-mem : (l : List Dict) {e : Dict} → Memᴰ e l → p e ≡ true → Memᴰ e (keep p l)
  unfolding keep
  keep-mem [] m holds = absurd (Memᴰ.not-nil m)
  keep-mem (d ∷ ds) {e} m holds = elim (Memᴰ.cases_cons m) [
    | inl same ↦ let here : p d ≡ true = sym (ap p same) ∙ holds in rw here (Memᴰ.head same)
    | inr later ↦ under d (p d) (keep-mem ds later holds)
  ]

  count-bound : (l : List Dict) → count p l ≤ length l
  unfolding count
  count-bound [] = omega arith
  count-bound (e ∷ es) = ground (arith, count-bound es)

module _ (show_value : Value → String) where
  length-insert_row :
      (e : Dict) (l : List Dict) → length (insert_row show_value e l) ≡ suc (length l)
  unfolding insert_row
  length-insert_row e [] = refl
  length-insert_row e (d ∷ ds) = ground (arith, length-insert_row e ds)

  length-newest_first : (l : List Dict) → length (newest_first show_value l) ≡ length l
  unfolding newest_first
  length-newest_first [] = refl
  length-newest_first (e ∷ es) = length-insert_row e _ ∙ ap suc (length-newest_first es)

  insert_row-mem :
      (e : Dict) (l : List Dict) {x : Dict}
      → (x ≡ e) ⊎ Memᴰ x l
      → Memᴰ x (insert_row show_value e l)
  unfolding insert_row
  insert_row-mem e [] (inl same) = Memᴰ.head same
  insert_row-mem e [] (inr m) = absurd (Memᴰ.not-nil m)
  insert_row-mem e (d ∷ ds) {x} m =
      elim (Bool-cases
        (at_least (printed show_value "recorded_at" e) (printed show_value "recorded_at" d))) [
          | inl front ↦ rw front (ahead m)
          | inr behind ↦ rw behind (further (insert_row-mem e ds) m)
        ]
    where
      ahead : (x ≡ e) ⊎ Memᴰ x (d ∷ ds) → Memᴰ x (e ∷ d ∷ ds)
      ahead (inl same) = Memᴰ.head same
      ahead (inr m) = Memᴰ.tail m

      further :
          ((x ≡ e) ⊎ Memᴰ x ds → Memᴰ x (insert_row show_value e ds))
          → (x ≡ e) ⊎ Memᴰ x (d ∷ ds)
          → Memᴰ x (d ∷ insert_row show_value e ds)
      further ih (inl same) = Memᴰ.tail (ih (inl same))
      further ih (inr m) = elim (Memᴰ.cases_cons m) [
        | inl same ↦ Memᴰ.head same
        | inr later ↦ Memᴰ.tail (ih (inr later))
      ]

  newest_first-mem : (l : List Dict) {x : Dict} → Memᴰ x l → Memᴰ x (newest_first show_value l)
  unfolding newest_first
  newest_first-mem [] m = absurd (Memᴰ.not-nil m)
  newest_first-mem (e ∷ es) m = insert_row-mem e _ (elim (Memᴰ.cases_cons m) [
    | inl same ↦ inl same
    | inr later ↦ inr (newest_first-mem es later)
  ])

  untouched :
      (k j : String) (v : Value) (d : Dict) → str_eq k j ≡ false → find k (put j v d) ≡ find k d
  untouched k j v d other = ground (arith, find-put j k v d, eq_iff j k, eq_iff k j, other)

  abbrev row_of : Dict → Value → String → Dict
  row_of e link status =
      put "outcome" (str (outcome_of status)) (put "explorer" link (put "status" (str status) e))

  row_of-Shows :
      (e : Dict) (link : Value) (status : String)
      → Shows e (row_of e link status) × IsSortedOut (row_of e link status)
  row_of-Shows e link status =
      let first = put "status" (str status) e in
      let second = put "explorer" link first in
      (
        (λ k free.
            untouched k "outcome" (str (outcome_of status)) second (ground (arith, free))
            ∙ (untouched k "explorer" link first (ground (arith, free))
                ∙ untouched k "status" (str status) e (ground (arith, free)))),
        (
          status,
          ap (λ (o : Option Value). get_or o null)
              (find-put "outcome" "outcome" (str (outcome_of status)) second),
        ),
      )

  execution_row-Shows :
      (e row : Dict) → execution_row show_value e ≡ ok row → Shows e row × IsSortedOut row
  unfolding execution_row
  execution_row-Shows e row made =
      let (link, known, last) = ok-steps (explorer show_value e) _ made in
      let status : String = show_value (or_value (get "status" e) (str "unknown")) in
      let this : row ≡ row_of e link status = ground (arith, last) in
      rw this (row_of-Shows e link status)

  abbrev bit : Bool → ℕ
  bit b = if b then 1 else 0

  -- A row has one of three outcomes.
  one_outcome :
      (row : Dict)
      → IsSortedOut row
      → bit (has_outcome "ok" row) + bit (has_outcome "pending" row) + bit (has_outcome "bad" row)
        ≡ 1
  unfolding outcome_of
  one_outcome row (status, e) =
      rw e (elim (Bool-cases (any (str_eq status) ("completed" ∷ "success" ∷ []))) [
        | inl good ↦ rw good refl
        | inr other ↦
            rw other
              (elim (Bool-cases
                (any (str_eq status) ("failed" ∷ "error" ∷ "system_error" ∷ "cancelled" ∷ []))) [
                  | inl bad ↦ rw bad refl
                  | inr open_ ↦ rw open_ refl
                ])
      ])

  -- Each entry has its row, and each row an outcome.
  execution_rows-all :
      (es rows : List Dict)
      → execution_rows show_value es ≡ ok rows
      → (length rows ≡ length es)
        × (count (has_outcome "ok") rows
              + count (has_outcome "pending") rows
              + count (has_outcome "bad") rows
            ≡ length rows)
        × ((e : Dict) → Memᴰ e es → (row : Dict) × Memᴰ row rows × Shows e row)
  unfolding execution_rows count
  execution_rows-all [] rows made =
      let this : rows ≡ [] = ground (arith, made) in
      rw this (refl, refl, λ e m. absurd (Memᴰ.not-nil m))
  execution_rows-all (e ∷ es) rows made =
      let (row, one, rest) = ok-steps (execution_row show_value e) _ made in
      let (more, others, last) = ok-steps (execution_rows show_value es) _ rest in
      let this : rows ≡ row ∷ more = ground (arith, last) in
      let (same, sums, has) = execution_rows-all es more others in
      let (shows, sorted) = execution_row-Shows e row one in
      let once = one_outcome row sorted in
      rw this (ap suc same, ground (arith, sums, once), found row more shows has)
    where
      found :
          (row : Dict) (more : List Dict)
          → Shows e row
          → ((d : Dict) → Memᴰ d es → (x : Dict) × Memᴰ x more × Shows d x)
          → (d : Dict) → Memᴰ d (e ∷ es)
          → (x : Dict) × Memᴰ x (row ∷ more) × Shows d x
      found row more shows has d m = elim (Memᴰ.cases_cons m) [
        | inl same ↦ (row, Memᴰ.head refl, rw same shows)
        | inr later ↦ let (x, n, shown) = has d later in (x, Memᴰ.tail n, shown)
      ]

-- What the page says of the rows that it reads.
pub record IsAccounted (show_value : Value → String) (rows : List Dict) (s : State) : Type 0 where
  -- Each row counts once, as an execution or as a dry run.
  pub total : s.summary.executions + s.summary.dry_runs ≡ length rows
  -- Each execution counts once: as done, in flight or failed.
  pub outcomes :
      count (has_outcome "ok") s.executions + s.summary.in_flight + s.summary.failed
      ≡ s.summary.executions
  pub refusals : s.summary.dry_run_refusals ≤ s.summary.dry_runs
  -- Each row that is no dry run is shown with its own fields.
  pub shown :
      (e : Dict)
      → Memᴰ e rows
      → is_simulation e ≡ false
      → (row : Dict) × Memᴰ row s.executions × Shows e row

state_from-IsAccounted :
    (show_value : Value → String) (rows executions demos : List Dict)
    (benchmark features conformance : Option Value)
    → execution_rows show_value (newest_first show_value (keep (λ e. not (is_simulation e)) rows))
      ≡ ok executions
    → IsAccounted show_value rows (
        state_from show_value
          (newest_first show_value (keep is_simulation rows))
          executions
          demos
          benchmark
          features
          conformance)
unfolding state_from summary_of
state_from-IsAccounted show_value rows executions demos benchmark features conformance made =
    let others = keep (λ e. not (is_simulation e)) rows in
    let dry_runs = keep is_simulation rows in
    let (same, sums, has) = execution_rows-all show_value _ executions made in
    record {
      total = omega (
        arith,
        same,
        length-newest_first show_value others,
        length-newest_first show_value dry_runs,
        length-keep is_simulation rows,
      );
      outcomes = sums;
      refusals = count-bound _ (newest_first show_value dry_runs);
      shown = λ e m real. has e (
          newest_first-mem show_value others
            (keep-mem (λ e. not (is_simulation e)) rows m (ap not real)));
    }

-- If the page's state is built, each row of the receipts file counts once, as an execution or as a
-- dry run; the executions are those that are done, in flight and failed; there are no more
-- refusals than dry runs; and each row that is not a dry run is among the executions, its fields
-- unchanged but for the status, the explorer's link and the outcome.
pub build_state-IsAccounted :
    (show_value : Value → String)
    (receipts demo_receipts benchmark features conformance : Option Value) (rows : List Dict)
    (s : State)
    → rows_in receipts ≡ ok rows
    → build_state show_value receipts demo_receipts benchmark features conformance ≡ ok s
    → IsAccounted show_value rows s
unfolding build_state
build_state-IsAccounted show_value receipts demo_receipts benchmark features conformance rows s read
      built =
    let (rows', read', rest) = ok-steps (rows_in receipts) _ built in
    let same : rows ≡ rows' = ground (arith, read, read') in
    let (executions, made, rest') = ok-steps (execution_rows show_value _) _ rest in
    let (demos, demo_read, last) = ok-steps (rows_in demo_receipts) _ rest' in
    let this : s
        ≡ state_from show_value (newest_first show_value (keep is_simulation rows')) executions
            demos benchmark features conformance =
      ground (arith, last) in
    rw same (
      rw this (
        state_from-IsAccounted show_value rows' executions demos benchmark features conformance
          made))
