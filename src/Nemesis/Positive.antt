-- ===== src/Nemesis/Positive.antt =====
-- The amounts that are given out are positive, and their sum is what was left.
use symbol_bootstrap.Base.{
  ℕ, ◌+◌, ◌-◌, ◌/◌, ◌≤◌, ◌<◌, ◌≡◌, refl, ap, ◌∙◌, true, List, [], ◌∷◌, ◌++◌, map, filter, length,
  ==_refl, le→leb, min, arith, All,
}
use symbol_bootstrap.Base.Int.{pos}
use symbol_bootstrap.Base.Text.{Text}
use symbol_bootstrap.Base.Result.{returned}
use symbol_bootstrap.Nemesis.{
  Distribution, sum, give, is_positive, generated_accounts, give_out, distribute,
}
use symbol_bootstrap.Nemesis.Sums.{
  total, AllNat, sum_of_AllNat, total-append, AllNat-append, total-filter, AllNat-filter,
}

filter-append_positive :
    (xs ys : List Distribution)
    → All (λ d. is_positive d ≡ true) xs
    → filter is_positive (xs ++ ys) ≡ xs ++ filter is_positive ys
filter-append_positive [] ys h = refl
filter-append_positive (x ∷ xs) ys (h, hs) =
    rw h (ap (λ t. x ∷ t) (filter-append_positive xs ys hs))

-- Every account that is generated receives something, if there is enough.
positive-map-give :
    (amount : ℕ) (xs : List Text)
    → 0 < amount
    → All (λ d. is_positive d ≡ true) (map (give amount) xs)
positive-map-give amount [] h = tt
positive-map-give amount (a ∷ xs) h = (ground arith, positive-map-give amount xs h)

All-append_positive :
    (xs ys : List Distribution)
    → All (λ d. is_positive d ≡ true) xs
    → All (λ d. is_positive d ≡ true) ys
    → All (λ d. is_positive d ≡ true) (xs ++ ys)
All-append_positive [] ys h k = k
All-append_positive (x ∷ xs) ys (h, hs) k = (h, All-append_positive xs ys hs k)

div-pos : (n d : ℕ) → 0 < d → d ≤ n → 0 < n / d
div-pos n d p h = grind arith

module _ (remaining max_balance : ℕ) (accounts nodes : List Text)
    (some_account : 0 < length accounts + length nodes)
    (enough : length accounts + length nodes ≤ remaining) (some_balance : 0 < max_balance) where
  pub positive-generated_accounts :
      All (λ d. is_positive d ≡ true) (generated_accounts remaining max_balance accounts nodes)
  unfolding generated_accounts
  positive-generated_accounts =
      let per = remaining / (length accounts + length nodes) in
      let each : 0 < per = div-pos remaining (length accounts + length nodes) some_account enough in
      All-append_positive (map (give per) accounts) (map (give (min max_balance per)) nodes)
        (positive-map-give per accounts each)
        (positive-map-give (min max_balance per) nodes (omega (arith, each, some_balance)))

  pub generated_accounts-cons :
      (g : Distribution) × (gs : List Distribution) × (generated_accounts remaining max_balance
          accounts nodes
        ≡ g ∷ gs)
  generated_accounts-cons = first accounts nodes some_account
    where
      first :
          (as' ns : List Text)
          → 0 < length as' + length ns
          → (g : Distribution) × (gs : List Distribution) × (generated_accounts remaining
                max_balance as' ns
              ≡ g ∷ gs)
      first (a ∷ as') ns h = unfold generated_accounts in (_, _, refl)
      first [] (n ∷ ns) h = unfold generated_accounts in (_, _, refl)
      first [] [] h = absurd (omega arith)

module _ (supply : ℕ) (provided : List Distribution) (g : Distribution) (gs : List Distribution)
    (nat : AllNat provided) (nats : AllNat (g ∷ gs)) (fits : total provided ≤ supply)
    (room : total gs ≤ supply - total provided) where
  -- The distributions, with what is left over for the first account.
  abbrev pub distributed : List Distribution
  distributed =
      record g { amount = pos (supply - total provided - total gs) }
      ∷ (gs ++ filter is_positive provided)

  pub sum-distributed : sum distributed ≡ returned supply
  unfolding total
  sum-distributed =
      sum_of_AllNat distributed
        (tt, AllNat-append gs (filter is_positive provided) nats.1 (AllNat-filter provided nat))
      ∙ ap returned (
          omega (
            arith,
            total-append gs (filter is_positive provided),
            total-filter provided,
            fits,
            room,
          ))

  -- What `distribute` does when the provided amounts sum up and some account is generated.
  pub distribute-cons :
      (max_balance : ℕ) (accounts nodes : List Text)
      → generated_accounts (supply - total provided) max_balance accounts nodes ≡ g ∷ gs
      → All (λ d. is_positive d ≡ true) (g ∷ gs)
      → distribute supply provided max_balance accounts nodes ≡ returned distributed
  unfolding distribute give_out
  distribute-cons max_balance accounts nodes e positive = rw (sum_of_AllNat provided nat) (
      rw (le→leb (total provided) supply fits) (
        rw e (
          rw (sum_of_AllNat gs nats.1) (
            rw (filter-append_positive (g ∷ gs) provided positive)
              (rw sum-distributed (rw (==_refl supply)))))))
