-- ===== src/Submitter/Verdict.antt =====
-- A receipt says success only where the chain or a verified receipt of KeeperHub does.
use almanak_keeperhub.Prelude.{
  ℕ, String, ◌≡◌, ◌⊎◌, refl, ap, ◌∙◌, Bool, true, false, ◌&&◌, Option, none, some, List, [], ◌∷◌,
  if◌then◌else◌, ◌==◌, any, Bool-cases, inl, inr, arith,
}
use almanak_keeperhub.Errors.{Error, Result, ok, err}
use almanak_keeperhub.Effects.{
  World, Host, ChainReceipt, Receipt, ExecutionStatus, gets, asks, lift, continue, ◌>>=◌,
}
use almanak_keeperhub.Effects.Frame.{Outcome}
use almanak_keeperhub.Submitter.Types.{Settings, TransactionReceipt}
use almanak_keeperhub.Submitter.Settle.{
  is_failed, is_about, has_block, find_first, from_keeperhub, to_almanak_receipt, receipt_for,
  settle, get_receipt,
}

-- Some receipt passes the test.
abbrev pub Some : (Receipt → Type 0) → List Receipt → Type 0
Some P [] = ⊥
Some P (r ∷ rs) = P r ⊎ Some P rs

-- KeeperHub verified this receipt of the hash, in a block, and does not call it failed.
abbrev pub Vouches : String → Receipt → Type 0
Vouches hash r =
    (is_about hash r ≡ true)
    × (r.verified ≡ true)
    × (has_block r.block_number ≡ true)
    × (is_failed r ≡ false)

-- Who says that the transaction succeeded.
abbrev pub Vouched : String → ExecutionStatus → Option ChainReceipt → Type 0
Vouched hash status (some raw) =
    (raw.status ≡ 1) × (any (λ r. is_about hash r && is_failed r) status.receipts ≡ false)
Vouched hash status none = Some (Vouches hash) status.receipts

abbrev pub Supported : String → ExecutionStatus → Option ChainReceipt → TransactionReceipt → Type 0
Supported hash status fetched receipt =
    (receipt.tx_hash ≡ hash) × (receipt.status ≡ 1 → Vouched hash status fetched)

module _ (hash : String) where
  conjuncts : (a b c : Bool) → (a && (b && c)) ≡ true → (a ≡ true) × (b ≡ true) × (c ≡ true)
  conjuncts true true c p = (refl, refl, p)
  conjuncts true false c p = cc
  conjuncts false b c p = cc

  abbrev verified_for : Receipt → Bool
  verified_for r = is_about hash r && (r.verified && has_block r.block_number)

  step :
      (b : Bool) (q r : Receipt) (rest : Option Receipt)
      → (if b then some q else rest) ≡ some r
      → ((b ≡ true) × (q ≡ r)) ⊎ (rest ≡ some r)
  step true q r rest p = inl (refl, cc)
  step false q r rest p = inr p

  Some-find_first :
      (P : Receipt → Type 0) (rs : List Receipt) (r : Receipt)
      → find_first verified_for rs ≡ some r
      → ((q : Receipt) → verified_for q ≡ true → q ≡ r → P q)
      → Some P rs
  unfolding find_first
  Some-find_first P [] r p k = cc
  Some-find_first P (q ∷ rs) r p k =
      elim (step (verified_for q) q r (find_first verified_for rs) p) [
        | inl (fits, same) ↦ inl (k q fits same)
        | inr later ↦ inr (Some-find_first P rs r later k)
      ]

  impossible : ◌≡◌ {A = ℕ} 0 1 → ⊥
  impossible p = omega arith

  passed : (b : Bool) → ◌≡◌ {A = ℕ} (if b then 0 else 1) 1 → b ≡ false
  passed true p = elim (impossible p) [ ]
  passed false p = refl

  chain :
      (raw : ChainReceipt) (failed : Bool)
      → Outcome
          (λ receipt.
            (receipt.tx_hash ≡ hash) × (receipt.status ≡ 1 → (raw.status ≡ 1) × (failed ≡ false)))
          (λ e. Unit)
          (if raw.status == 1 && failed
            then ok (record (to_almanak_receipt raw hash) { status = 0 })
            else ok (to_almanak_receipt raw hash))
  unfolding to_almanak_receipt
  chain raw failed = elim (Bool-cases (raw.status == 1 && failed)) [
    | inl doubted ↦ rw doubted (refl, λ p. elim (impossible p) [ ])
    | inr agreed ↦ rw agreed (refl, λ p. (p, ground arith))
  ]

  vouch : (q : Receipt) → verified_for q ≡ true → is_failed q ≡ false → Vouches hash q
  vouch q v p =
      let (a, b, c) = conjuncts (is_about hash q) q.verified (has_block q.block_number) v in
      (a, b, c, p)

  offered :
      (status : ExecutionStatus) (found : Option Receipt) (problem : Error)
      → find_first verified_for status.receipts ≡ found
      → Outcome
          (Supported hash status none)
          (λ e. Unit)
          (elim found [ none ↦ err problem | some r ↦ ok (from_keeperhub hash r) ])
  unfolding from_keeperhub
  offered status none problem e = tt
  offered status (some r) problem e = (
    refl,
    λ p.
        Some-find_first (Vouches hash) status.receipts r e
          (λ q v same. vouch q v (ap is_failed same ∙ passed (is_failed r) p)),
  )

  receipt_for-Supported :
      (status : ExecutionStatus) (fetched : Option ChainReceipt)
      → Outcome (Supported hash status fetched) (λ e. Unit) (receipt_for hash status fetched)
  unfolding receipt_for
  receipt_for-Supported status (some raw) =
      chain raw (any (λ r. is_about hash r && is_failed r) status.receipts)
  receipt_for-Supported status none = offered status _ _ refl

-- The outcome of `get_receipt` when the execution has settled.
abbrev pub Settled : Settings → String → ℕ → Host → World → TransactionReceipt → Type 0
Settled s hash limit h w receipt =
    (status : ExecutionStatus) × ((settle s hash limit h w).0 ≡ ok status)
    × Supported hash status (h.fetch_receipt (settle s hash limit h w).1.sent hash) receipt

-- A receipt that `get_receipt` returns is for the hash that was asked for and comes after the
-- execution settled. Its status is 1 only if the chain's receipt has status 1 and none of
-- KeeperHub's receipts of the hash is a failed one or, where the chain's cannot be read, if
-- KeeperHub verified a receipt of the hash in a block and does not call it failed.
pub get_receipt-Supported :
    (s : Settings) (hash : String) (limit : ℕ) (h : Host) (w : World)
    → Outcome
        (λ receipt. Settled s hash limit h w receipt)
        (λ e. Unit)
        (get_receipt s hash limit h w).0
unfolding get_receipt gets asks lift continue ◌>>=◌
get_receipt-Supported s hash limit h w =
    after (settle s hash limit h w).0 (settle s hash limit h w).1 refl refl
  where
    support :
        (status : ExecutionStatus) (v : World) (r : Result TransactionReceipt)
        → (settle s hash limit h w).0 ≡ ok status
        → (settle s hash limit h w).1 ≡ v
        → Outcome (Supported hash status (h.fetch_receipt v.sent hash)) (λ e. Unit) r
        → Outcome (λ receipt. Settled s hash limit h w receipt) (λ e. Unit) r
    support status v (ok receipt) p q t = (status, p, rw q t)
    support status v (err e) p q t = tt

    after :
        (r : Result ExecutionStatus) (v : World)
        → (settle s hash limit h w).0 ≡ r
        → (settle s hash limit h w).1 ≡ v
        → Outcome
            (λ receipt. Settled s hash limit h w receipt)
            (λ e. Unit)
            (continue r
              (λ status h' v'. (receipt_for hash status (h'.fetch_receipt v'.sent hash), v'))
              h
              v).0
    after (ok status) v p q =
        support status v _ p q (receipt_for-Supported hash status (h.fetch_receipt v.sent hash))
    after (err e) v p q = tt
