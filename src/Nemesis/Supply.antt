-- ===== src/Nemesis/Supply.antt =====
-- The supply of a mosaic is given out, neither more nor less.
use symbol_bootstrap.Base.{
  ℕ, ◌+◌, ◌-◌, ◌≤◌, ◌<◌, ◌≡◌, ◌≢◌, refl, sym, subst, true, List, [], ◌∷◌, ◌++◌, filter, length,
  drop, leb, arith, All, Bool-cases, inl, inr,
}
use symbol_bootstrap.Base.Int.{pos}
use symbol_bootstrap.Base.Text.{Text}
use symbol_bootstrap.Base.Result.{returned, error, guard, ◌>>=◌, ◌>>◌, >>=-eq-returned}
use symbol_bootstrap.Nemesis.{
  Distribution, NodePreset, MosaicPreset, sum, is_positive, set_first, generated_accounts,
  check_supply, give_out, distribute, process_mosaic, node_distributions, node_main_accounts,
}
use symbol_bootstrap.Nemesis.Sums.{
  amount_ℕ, total, AllNat, sum_of_AllNat, AllNat-of_sum, total-filter, AllNat-filter,
  total-generated_accounts, AllNat-generated_accounts,
}
use symbol_bootstrap.Nemesis.Positive.{
  positive-generated_accounts, generated_accounts-cons, sum-distributed, distribute-cons,
}

-- What the provided distributions leave is given out in full. With at least one account or node to
-- generate for, at least one unit for each of them, amounts of which none is negative, a provided
-- sum within the supply and a maximum balance that is not zero, the distributions of a mosaic are
-- made; their sum is the supply, and behind the first stand the generated ones as they are, and the
-- provided ones that are not zero.
pub distribute_whole_supply :
    (supply : ℕ) (provided : List Distribution) (max_balance : ℕ) (accounts nodes : List Text)
    → AllNat provided
    → total provided ≤ supply
    → 0 < length accounts + length nodes
    → length accounts + length nodes ≤ supply - total provided
    → 0 < max_balance
    → (first : Distribution) × (rest : List Distribution) × (distribute supply provided max_balance
          accounts nodes
        ≡ returned (first ∷ rest))
      × (sum (first ∷ rest) ≡ returned supply)
      × (rest
          ≡ drop 1 (generated_accounts (supply - total provided) max_balance accounts nodes)
            ++ filter is_positive provided)
distribute_whole_supply supply provided max_balance accounts nodes nat fits some_account enough b =
    let remaining = supply - total provided in
    let (g, gs, e) =
      generated_accounts-cons remaining max_balance accounts nodes some_account enough b in
    let generated = generated_accounts remaining max_balance accounts nodes in
    let nats : AllNat (g ∷ gs) =
      rw e at (AllNat-generated_accounts remaining max_balance accounts nodes) in
    let bound : total (g ∷ gs) ≤ remaining =
      rw e at (total-generated_accounts remaining max_balance accounts nodes) in
    let positive : All (λ d. is_positive d ≡ true) (g ∷ gs) =
      rw e at
        (positive-generated_accounts remaining max_balance accounts nodes some_account enough b) in
    let room : total gs ≤ remaining = unfold total in omega (arith, bound) in
    (
      record g { amount = pos (supply - total provided - total gs) },
      gs ++ filter is_positive provided,
      distribute-cons supply provided g gs nat nats fits room max_balance accounts nodes e positive,
      sum-distributed supply provided g gs nat nats fits room,
      rw e,
    )

check_supply-sum :
    (supply : ℕ) (distributions ds : List Distribution)
    → check_supply supply distributions ≡ returned ds
    → sum ds ≡ returned supply
unfolding check_supply
check_supply-sum supply distributions ds h = ground arith

check_supply-input :
    (supply : ℕ) (distributions ds : List Distribution)
    → check_supply supply distributions ≡ returned ds
    → sum distributions ≡ returned supply
unfolding check_supply
check_supply-input supply distributions ds h = ground arith

set_first-sum :
    (amount supply : ℕ) (distributions ds : List Distribution)
    → (set_first amount distributions >>= check_supply supply) ≡ returned ds
    → sum ds ≡ returned supply
set_first-sum amount supply [] ds h = cc
set_first-sum amount supply (d ∷ rest) ds h = check_supply-sum supply _ ds h

give_out-sum :
    (supply provided_supply : ℕ) (generated provided ds : List Distribution)
    → give_out supply provided_supply generated provided ≡ returned ds
    → sum ds ≡ returned supply
unfolding give_out
give_out-sum supply provided_supply generated provided ds h =
    let (n, _, k) =
      >>=-eq-returned (sum (drop 1 generated))
        (λ n.
          set_first (supply - provided_supply - n) (filter is_positive (generated ++ provided))
          >>= check_supply supply)
        h in
    set_first-sum (supply - provided_supply - n) supply (filter is_positive (generated ++ provided))
      ds k

-- A successful `distribute` had a provided sum within the supply, and gave out the rest.
distribute-eq-returned :
    (supply : ℕ) (provided : List Distribution) (max_balance : ℕ) (accounts nodes : List Text)
    (ds : List Distribution)
    → distribute supply provided max_balance accounts nodes ≡ returned ds
    → (p : ℕ) × (sum provided ≡ returned p)
      × (p ≤ supply)
      × (give_out supply p (generated_accounts (supply - p) max_balance accounts nodes) provided
          ≡ returned ds)
unfolding distribute
distribute-eq-returned supply provided max_balance accounts nodes ds h =
    let (p, e, k) =
      >>=-eq-returned (sum provided)
        (λ p.
          guard (leb p supply) (error "fixed distributed supply is grater than mosaic total supply")
          >> give_out supply p (generated_accounts (supply - p) max_balance accounts nodes)
              provided)
        h in
    (p, e, ground arith, ground arith)

-- However the accounts and the preset are, if the distributions of a mosaic are made then their sum
-- is the supply of the mosaic.
pub process_mosaic-sum :
    (presets : List NodePreset) (max_balance mosaic_index : ℕ) (m : MosaicPreset)
    (accounts nodes : List Text) (ds : List Distribution)
    → process_mosaic presets max_balance mosaic_index m accounts nodes ≡ returned ds
    → sum ds ≡ returned m.supply
unfolding process_mosaic
process_mosaic-sum presets max_balance mosaic_index m accounts nodes ds h =
    let (p, _, _, k) =
      distribute-eq-returned m.supply
        (m.currency_distributions ++ node_distributions presets mosaic_index 0 nodes) max_balance
        accounts (node_main_accounts presets mosaic_index 0 nodes) ds h in
    give_out-sum m.supply p
      (generated_accounts (m.supply - p) max_balance accounts
        (node_main_accounts presets mosaic_index 0 nodes))
      (m.currency_distributions ++ node_distributions presets mosaic_index 0 nodes) ds k

filter_positive-head :
    (xs : List Distribution) (d : Distribution) (ds : List Distribution)
    → filter is_positive xs ≡ d ∷ ds
    → is_positive d ≡ true
filter_positive-head [] d ds h = cc
filter_positive-head (x ∷ xs) d ds h = elim (Bool-cases (is_positive x)) [
  | inl e ↦ ground (arith, rw e at h)
  | inr e ↦ filter_positive-head xs d ds (rw e at h)
]

overwritten_first :
    (supply : ℕ) (provided left ds : List Distribution)
    → AllNat provided
    → total provided ≤ supply
    → filter is_positive provided ≡ left
    → (set_first (supply - total provided - 0) left >>= check_supply supply) ≢ returned ds
overwritten_first supply provided [] ds nat fits e h = cc
overwritten_first supply provided (d ∷ left) ds nat fits e h =
    let first = record d { amount = pos (supply - total provided - 0) } in
    let nats : AllNat (d ∷ left) = rw e at (AllNat-filter provided nat) in
    let exact : sum (first ∷ left) ≡ returned supply =
      check_supply-input supply (first ∷ left) ds h in
    let counted : sum (first ∷ left) ≡ returned (total (first ∷ left)) =
      sum_of_AllNat (first ∷ left) (tt, nats.1) in
    let same : total (first ∷ left) ≡ supply = ground (arith, exact, counted) in
    let all : total (d ∷ left) ≡ total provided = rw e at (total-filter provided) in
    let some_amount : 0 < amount_ℕ d.amount =
      ground (arith, filter_positive-head provided d left e) in
    unfold total in absurd (omega (arith, same, all, some_amount, fits))

-- Without an account or a node to generate for, no distribution is accepted, whatever the preset
-- provides: either nothing is given out, or the first amount is overwritten and the sum is no longer
-- the supply.
pub distribute_needs_account :
    (supply : ℕ) (provided : List Distribution) (max_balance : ℕ) (ds : List Distribution)
    → distribute supply provided max_balance [] [] ≢ returned ds
unfolding give_out generated_accounts sum
distribute_needs_account supply provided max_balance ds h =
    let (p, e, fits, k) = distribute-eq-returned supply provided max_balance [] [] ds h in
    let (nat, same) = AllNat-of_sum provided p e in
    overwritten_first supply provided (filter is_positive provided) ds nat
      (omega (arith, same, fits)) refl
      (subst
        (λ q.
          (set_first (supply - q - 0) (filter is_positive provided) >>= check_supply supply)
          ≡ returned ds)
        (sym same) k)
