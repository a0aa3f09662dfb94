-- ===== src/Receipts/Entries.antt =====
-- Facts about the log's entries that writes preserve, and that an append establishes.
use almanak_keeperhub.Prelude.{String, ◌≡◌, ◌⊎◌, inl, inr, List, [], ◌∷◌, ◌++◌, map}
use almanak_keeperhub.Python.Json.{Dict, arr, dicts-items_of, items_of}
use almanak_keeperhub.Errors.{Result, ok, err}
use almanak_keeperhub.Effects.{World, Host, File, document, modify, gets, lift, continue, ◌>>=◌}
use almanak_keeperhub.Effects.Frame.{Frame, Keeps, Keeps-bind, Keeps-gets, Keeps-asks}
use almanak_keeperhub.Effects.Triple.{Left, Triple, Triple-bind, Triple-any}
use almanak_keeperhub.Receipts.{
  parse, mutate, timestamp, record_execution, record_simulation, touch, update, execution_entry,
}

abbrev pub AnyEntry : (Dict → Type 0) → List Dict → Type 0
AnyEntry P [] = ⊥
AnyEntry P (e ∷ es) = P e ⊎ AnyEntry P es

abbrev Readable : (Dict → Type 0) → Result (List Dict) → Type 0
Readable P (ok es) = AnyEntry P es
Readable P (err e) = ⊥

-- The file is readable and holds an entry that satisfies P.
abbrev pub Holds : (Dict → Type 0) → File → Type 0
Holds P file = Readable P (parse file)

-- What the file holds, it holds on.
abbrev pub Holding : (Dict → Type 0) → Frame
Holding P = record {
  rel = λ u v. Holds P u.file → Holds P v.file;
  stay = λ w p. p;
  compose = λ u v w s t p. t (s p);
}

abbrev Rewrite : Type 0
Rewrite = List Dict → List Dict

abbrev Rewritten : Rewrite → Result (List Dict) → Host → World → Result (Unit {0}) × World
Rewritten apply r h w =
    continue r (λ es. modify (λ v. record v { file = document (arr (items_of (apply es))) })) h w

module _ (P : Dict → Type 0) where
  AnyEntry-append : (es fs : List Dict) → AnyEntry P es → AnyEntry P (es ++ fs)
  AnyEntry-append [] fs p = elim p [ ]
  AnyEntry-append (e ∷ es) fs (inl p) = inl p
  AnyEntry-append (e ∷ es) fs (inr p) = inr (AnyEntry-append es fs p)

  AnyEntry-last : (es : List Dict) (e : Dict) → P e → AnyEntry P (es ++ e ∷ [])
  AnyEntry-last [] e p = inl p
  AnyEntry-last (f ∷ es) e p = inr (AnyEntry-last es e p)

  AnyEntry-map :
      (f : Dict → Dict) (es : List Dict)
      → ((e : Dict) → P e → P (f e))
      → AnyEntry P es
      → AnyEntry P (map f es)
  AnyEntry-map f [] k p = elim p [ ]
  AnyEntry-map f (e ∷ es) k (inl p) = inl (k e p)
  AnyEntry-map f (e ∷ es) k (inr p) = inr (AnyEntry-map f es k p)

  written :
      (apply : Rewrite) (r : Result (List Dict)) (h : Host) (w : World)
      → ((es : List Dict) → AnyEntry P es → AnyEntry P (apply es))
      → Readable P r
      → Holds P (Rewritten apply r h w).1.file
  unfolding continue modify parse
  written apply (ok es) h w k p = rw (dicts-items_of (apply es)) (k es p)
  written apply (err e) h w k p = elim p [ ]

  Keeps-mutate :
      (apply : Rewrite)
      → ((es : List Dict) → AnyEntry P es → AnyEntry P (apply es))
      → Keeps (Holding P) (mutate apply)
  unfolding mutate gets lift continue ◌>>=◌
  Keeps-mutate apply k = record { at = λ h w p. written apply (parse w.file) h w k p }

  Keeps-timestamp : Keeps (Holding P) timestamp
  unfolding timestamp
  Keeps-timestamp = Keeps-bind (Keeps-gets _) (λ now. Keeps-asks _)

  pub Keeps-record_execution :
      (id : String) (fields : Dict) → Keeps (Holding P) (record_execution id fields)
  unfolding record_execution
  Keeps-record_execution id fields =
      Keeps-bind Keeps-timestamp (λ now. Keeps-mutate _ (λ es p. AnyEntry-append es _ p))

  pub Keeps-record_simulation : (fields : Dict) → Keeps (Holding P) (record_simulation fields)
  unfolding record_simulation
  Keeps-record_simulation fields =
      Keeps-bind Keeps-timestamp (λ now. Keeps-mutate _ (λ es p. AnyEntry-append es _ p))

  pub Keeps-update :
      (id : String) (fields : Dict)
      → ((now : String) (e : Dict) → P e → P (touch id fields now e))
      → Keeps (Holding P) (update id fields)
  unfolding update
  Keeps-update id fields k =
      Keeps-bind Keeps-timestamp (λ now. Keeps-mutate _ (λ es p. AnyEntry-map _ es (k now) p))

  pub Keeps-modify :
      (g : World → World) → ((w : World) → (g w).file ≡ w.file) → Keeps (Holding P) (modify g)
  unfolding modify
  Keeps-modify g same = record { at = λ h w p. rw (same w) p }

  appended :
      (e : Dict) (r : Result (List Dict)) (h : Host) (w : World)
      → P e
      → Left
          (λ _ v. Holds P v.file)
          (Rewritten (λ es. es ++ e ∷ []) r h w).0
          (Rewritten (λ es. es ++ e ∷ []) r h w).1
  unfolding continue modify parse
  appended e (ok es) h w p = rw (dicts-items_of (es ++ e ∷ [])) (AnyEntry-last es e p)
  appended e (err problem) h w p = tt

  mutate-Holds :
      (e : Dict) → P e → Triple (λ w. Unit) (mutate (λ es. es ++ e ∷ [])) (λ _ w. Holds P w.file)
  unfolding mutate gets lift continue ◌>>=◌
  mutate-Holds e p = record { at = λ h w _. appended e (parse w.file) h w p }

  pub record_execution-Holds :
      (id : String) (fields : Dict)
      → ((now : String) → P (execution_entry id now fields))
      → Triple (λ w. Unit) (record_execution id fields) (λ _ w. Holds P w.file)
  unfolding record_execution
  record_execution-Holds id fields p =
      Triple-bind (Triple-any timestamp) (λ now. mutate-Holds _ (p now))
