-- ===== src/Receipts/Union.antt =====
-- The union of the logs: one entry for each piece of work, and none is lost.
use almanak_keeperhub.Prelude.{
  String, ◌≡◌, ◌⊎◌, refl, sym, ◌∙◌, inl, inr, Bool, true, false, not, ◌&&◌, List, [], ◌∷◌, arith,
  if◌then◌else◌, str_eq, eq_iff, Bool-cases,
}
use almanak_keeperhub.Python.Text.{is_text}
use almanak_keeperhub.Python.Json.{Value, Dict, truthy, get, find-put}
use almanak_keeperhub.Errors.{Result, ok, err}
use almanak_keeperhub.Effects.{File}
use almanak_keeperhub.Effects.Frame.{Outcome}
use almanak_keeperhub.Receipts.{parse, entry_key, printed, at_least}
use almanak_keeperhub.Receipts.Merge.{
  Merged, tag, newer, place, absorb, insert, sort, merge_from, merge_logs,
}

module _ (show_value : Value → String) where
  -- The list holds an entry with the key.
  abbrev pub HasKey : String → List Dict → Type 0
  HasKey key [] = ⊥
  HasKey key (e ∷ es) = (entry_key show_value e ≡ key) ⊎ HasKey key es

  -- No two entries have the same key.
  abbrev pub IsDistinct : List Dict → Type 0
  IsDistinct [] = Unit
  IsDistinct (e ∷ es) = ¬ (HasKey (entry_key show_value e) es) × IsDistinct es

  -- Some log holds an entry with the key.
  abbrev pub Logged : String → List (String × File) → Type 0
  Logged key [] = ⊥
  Logged key ((source, file) ∷ logs) = Outcome (HasKey key) (λ e. ⊥) (parse file) ⊎ Logged key logs

  abbrev Keyed : String → Merged → Type 0
  Keyed key [] = ⊥
  Keyed key ((k, e) ∷ rest) = (k ≡ key) ⊎ Keyed key rest

  -- Each key stands once, with an entry that has it.
  abbrev IsIndex : Merged → Type 0
  IsIndex [] = Unit
  IsIndex ((k, e) ∷ rest) = (entry_key show_value e ≡ k) × ¬ (Keyed k rest) × IsIndex rest

  tag-entry_key :
      (source : String) (e : Dict) → entry_key show_value (tag source e) ≡ entry_key show_value e
  unfolding tag entry_key
  tag-entry_key source e = elim (Bool-cases (not (truthy (get "source" e)) && is_text source)) [
    | inl named ↦ rw named (simp find-put)
    | inr kept ↦ rw kept refl
  ]

  same_key : (k key : String) → str_eq k key ≡ true → k ≡ key
  same_key k key p = ground (arith, eq_iff k key)

  place-Keyed :
      (key : String) (e : Dict) (merged : Merged) → Keyed key (place show_value key e merged)
  unfolding place
  place-Keyed key e [] = inl refl
  place-Keyed key e ((k, previous) ∷ rest) = elim (Bool-cases (str_eq k key)) [
    | inl same ↦ rw same (inl (same_key k key same))
    | inr other ↦ rw other (inr (place-Keyed key e rest))
  ]

  place-keeps :
      (j key : String) (e : Dict) (merged : Merged)
      → Keyed j merged
      → Keyed j (place show_value key e merged)
  unfolding place
  place-keeps j key e [] p = elim p [ ]
  place-keeps j key e ((k, previous) ∷ rest) p = elim (Bool-cases (str_eq k key)) [
    | inl same ↦ rw same p
    | inr other ↦
        rw other (elim p [ inl here ↦ inl here | inr there ↦ inr (place-keeps j key e rest there) ])
  ]

  replaced :
      (b : Bool) (k j key : String) (new old : Dict) (rest later : Merged)
      → (Keyed j later → (key ≡ j) ⊎ Keyed j rest)
      → Keyed j (if b then (k, new) ∷ rest else (k, old) ∷ later)
      → (key ≡ j) ⊎ ((k ≡ j) ⊎ Keyed j rest)
  replaced true k j key new old rest later only p = inr p
  replaced false k j key new old rest later only (inl here) = inr (inl here)
  replaced false k j key new old rest later only (inr there) = elim (only there) [
    | inl fresh ↦ inl fresh
    | inr known ↦ inr (inr known)
  ]

  place-only :
      (j key : String) (e : Dict) (merged : Merged)
      → Keyed j (place show_value key e merged)
      → (key ≡ j) ⊎ Keyed j merged
  unfolding place
  place-only j key e [] (inl here) = inl here
  place-only j key e [] (inr p) = elim p [ ]
  place-only j key e ((k, previous) ∷ rest) p =
      replaced (str_eq k key) k j key (if newer show_value e previous then e else previous) previous
        rest (place show_value key e rest) (place-only j key e rest) p

  differ : (a b : String) → str_eq a b ≡ false → ¬ (a ≡ b)
  differ a b p q = ground (arith, eq_iff a b)

  pick :
      (b : Bool) (e previous : Dict) (key : String)
      → entry_key show_value e ≡ key
      → entry_key show_value previous ≡ key
      → entry_key show_value (if b then e else previous) ≡ key
  pick true e previous key p q = p
  pick false e previous key p q = q

  place-IsIndex :
      (e : Dict) (merged : Merged)
      → IsIndex merged
      → IsIndex (place show_value (entry_key show_value e) e merged)
  unfolding place
  place-IsIndex e [] p = (refl, (λ q. q), tt)
  place-IsIndex e ((k, previous) ∷ rest) p = elim (Bool-cases (str_eq k (entry_key show_value e))) [
    | inl same ↦ rw same (pick _ e previous k (sym (same_key _ _ same)) p.0, p.1, p.2)
    | inr other ↦ rw other (
      p.0,
      (λ q. elim (place-only k _ e rest q) [
        | inl new ↦ differ _ _ other (sym new)
        | inr old ↦ p.1 old
      ]),
      place-IsIndex e rest p.2,
    )
  ]

  absorb-IsIndex :
      (source : String) (es : List Dict) (merged : Merged)
      → IsIndex merged
      → IsIndex (absorb show_value source es merged)
  unfolding absorb
  absorb-IsIndex source [] merged p = p
  absorb-IsIndex source (e ∷ es) merged p =
      absorb-IsIndex source es _ (place-IsIndex (tag source e) merged p)

  absorb-keeps :
      (j source : String) (es : List Dict) (merged : Merged)
      → Keyed j merged
      → Keyed j (absorb show_value source es merged)
  unfolding absorb
  absorb-keeps j source [] merged p = p
  absorb-keeps j source (e ∷ es) merged p = absorb-keeps j source es _ (place-keeps j _ _ merged p)

  absorb-Keyed :
      (j source : String) (es : List Dict) (merged : Merged)
      → HasKey j es
      → Keyed j (absorb show_value source es merged)
  unfolding absorb
  absorb-Keyed j source [] merged p = elim p [ ]
  absorb-Keyed j source (e ∷ es) merged (inl here) =
      absorb-keeps j source es _
        (rw⁻¹ (tag-entry_key source e ∙ here) (place-Keyed _ (tag source e) merged))
  absorb-Keyed j source (e ∷ es) merged (inr there) = absorb-Keyed j source es _ there

  insert-HasKey :
      (j : String) (e : Dict) (ds : List Dict)
      → (entry_key show_value e ≡ j) ⊎ HasKey j ds
      → HasKey j (insert show_value e ds)
  unfolding insert
  insert-HasKey j e [] p = p
  insert-HasKey j e (d ∷ ds) p =
      elim (Bool-cases
        (at_least (printed show_value "recorded_at" d) (printed show_value "recorded_at" e))) [
          | inl front ↦ rw front p
          | inr later ↦ rw later (elim p [
            | inl own ↦ inr (insert-HasKey j e ds (inl own))
            | inr (inl here) ↦ inl here
            | inr (inr there) ↦ inr (insert-HasKey j e ds (inr there))
          ])
        ]

  inserted :
      (b : Bool) (j : String) (e d : Dict) (ds later : List Dict)
      → (HasKey j later → (entry_key show_value e ≡ j) ⊎ HasKey j ds)
      → HasKey j (if b then e ∷ d ∷ ds else d ∷ later)
      → (entry_key show_value e ≡ j) ⊎ HasKey j (d ∷ ds)
  inserted true j e d ds later only p = p
  inserted false j e d ds later only (inl here) = inr (inl here)
  inserted false j e d ds later only (inr there) = elim (only there) [
    | inl own ↦ inl own
    | inr old ↦ inr (inr old)
  ]

  insert-only :
      (j : String) (e : Dict) (ds : List Dict)
      → HasKey j (insert show_value e ds)
      → (entry_key show_value e ≡ j) ⊎ HasKey j ds
  unfolding insert
  insert-only j e [] p = p
  insert-only j e (d ∷ ds) p = inserted _ j e d ds (insert show_value e ds) (insert-only j e ds) p

  insert-IsDistinct :
      (e : Dict) (ds : List Dict)
      → ¬ (HasKey (entry_key show_value e) ds)
      → IsDistinct ds
      → IsDistinct (insert show_value e ds)
  unfolding insert
  insert-IsDistinct e [] new p = ((λ q. q), tt)
  insert-IsDistinct e (d ∷ ds) new p =
      elim (Bool-cases
        (at_least (printed show_value "recorded_at" d) (printed show_value "recorded_at" e))) [
          | inl front ↦ rw front (new, p)
          | inr later ↦ rw later (
            (λ q. elim (insert-only (entry_key show_value d) e ds q) [
              | inl own ↦ new (inl (sym own))
              | inr old ↦ p.0 old
            ]),
            insert-IsDistinct e ds (λ q. new (inr q)) p.1,
          )
        ]

  sort-only :
      (j : String) (merged : Merged)
      → IsIndex merged
      → HasKey j (sort show_value merged)
      → Keyed j merged
  unfolding sort
  sort-only j [] p q = elim q [ ]
  sort-only j ((k, e) ∷ rest) p q = elim (insert-only j e (sort show_value rest) q) [
    | inl own ↦ inl (sym p.0 ∙ own)
    | inr old ↦ inr (sort-only j rest p.2 old)
  ]

  sort-HasKey :
      (j : String) (merged : Merged)
      → IsIndex merged
      → Keyed j merged
      → HasKey j (sort show_value merged)
  unfolding sort
  sort-HasKey j [] p q = elim q [ ]
  sort-HasKey j ((k, e) ∷ rest) p (inl here) = insert-HasKey j e _ (inl (p.0 ∙ here))
  sort-HasKey j ((k, e) ∷ rest) p (inr there) =
      insert-HasKey j e _ (inr (sort-HasKey j rest p.2 there))

  sort-IsDistinct : (merged : Merged) → IsIndex merged → IsDistinct (sort show_value merged)
  unfolding sort
  sort-IsDistinct [] p = tt
  sort-IsDistinct ((k, e) ∷ rest) p =
      insert-IsDistinct e _ (λ q. p.1 (sort-only k rest p.2 (rw⁻¹ p.0 q)))
        (sort-IsDistinct rest p.2)

  -- One entry for each key, and each key of the logs.
  abbrev pub IsUnion : List (String × File) → Merged → List Dict → Type 0
  IsUnion logs merged es =
      IsDistinct es × ((key : String) → Keyed key merged ⊎ Logged key logs → HasKey key es)

  -- The same where the first log is read as r.
  abbrev IsUnionWith : Result (List Dict) → List (String × File) → Merged → List Dict → Type 0
  IsUnionWith r logs merged es =
      IsDistinct es
      × ((key : String)
          → Keyed key merged ⊎ (Outcome (HasKey key) (λ e. ⊥) r ⊎ Logged key logs)
          → HasKey key es)

  widen :
      (source : String) (entries : List Dict) (logs : List (String × File)) (merged : Merged)
      (r : Result (List Dict))
      → Outcome (IsUnion logs (absorb show_value source entries merged)) (λ e. Unit) r
      → Outcome (IsUnionWith (ok entries) logs merged) (λ e. Unit) r
  widen source entries logs merged (err e) p = tt
  widen source entries logs merged (ok es) p = (
    p.0,
    λ key q. p.1 key (elim q [
      | inl known ↦ inl (absorb-keeps key source entries merged known)
      | inr (inl first) ↦ inl (absorb-Keyed key source entries merged first)
      | inr (inr later) ↦ inr later
    ]),
  )

  merge_from-IsUnion :
      (logs : List (String × File)) (merged : Merged)
      → IsIndex merged
      → Outcome (IsUnion logs merged) (λ e. Unit) (merge_from show_value logs merged)
  unfolding merge_from
  merge_from-IsUnion [] merged p = (
    sort-IsDistinct merged p,
    λ key q. elim q [ inl k ↦ sort-HasKey key merged p k | inr none ↦ elim none [ ] ],
  )
  merge_from-IsUnion ((source, file) ∷ logs) merged p = next (parse file) (λ entries.
      merge_from-IsUnion logs (absorb show_value source entries merged)
        (absorb-IsIndex source entries merged p))
    where
      next :
          (r : Result (List Dict))
          → ((entries : List Dict)
              → Outcome
                  (IsUnion logs (absorb show_value source entries merged))
                  (λ e. Unit)
                  (merge_from show_value logs (absorb show_value source entries merged)))
          → Outcome
              (IsUnionWith r logs merged)
              (λ e. Unit)
              (elim r [
                | ok entries ↦ merge_from show_value logs (absorb show_value source entries merged)
                | err e ↦ err e
              ])
      next (ok entries) ih = widen source entries logs merged _ (ih entries)
      next (err e) ih = tt

-- The union of logs, where each of them can be read, has one entry for each piece of work: no two
-- of its entries have the same key, and the key of each entry of each log is the key of an entry
-- of the union.
pub merge_logs-IsUnion :
    (show_value : Value → String) (logs : List (String × File))
    → Outcome
        (λ es.
          IsDistinct show_value es
          × ((key : String) → Logged show_value key logs → HasKey show_value key es))
        (λ e. Unit)
        (merge_logs show_value logs)
unfolding merge_logs
merge_logs-IsUnion show_value logs =
    narrow (merge_from show_value logs []) (merge_from-IsUnion show_value logs [] tt)
  where
    narrow :
        (r : Result (List Dict))
        → Outcome (IsUnion show_value logs []) (λ e. Unit) r
        → Outcome
            (λ es.
              IsDistinct show_value es
              × ((key : String) → Logged show_value key logs → HasKey show_value key es))
            (λ e. Unit)
            r
    narrow (ok es) p = (p.0, λ key q. p.1 key (inr q))
    narrow (err e) p = tt
