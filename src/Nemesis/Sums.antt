-- ===== src/Nemesis/Sums.antt =====
-- Sums of distributions, and the amounts of the generated accounts.
use symbol_bootstrap.Base.{
  ℕ, ◌+◌, ◌*◌, ◌/◌, ◌≤◌, ◌≡◌, refl, List, [], ◌∷◌, ◌++◌, map, filter, length, min, arith, All,
}
use symbol_bootstrap.Base.Int.{ℤ, pos, negsuc}
use symbol_bootstrap.Base.Text.{Text}
use symbol_bootstrap.Base.Result.{returned, ◌>>=◌, >>=-eq-returned}
use symbol_bootstrap.Nemesis.{Distribution, natural, sum, give, is_positive, generated_accounts}

-- The amount, a negative one as 0.
abbrev pub amount_ℕ : ℤ → ℕ
amount_ℕ (pos n) = n
amount_ℕ (negsuc n) = 0

-- The sum of all amounts.
unfoldable pub total : List Distribution → ℕ
total [] = 0
total (d ∷ ds) = amount_ℕ d.amount + total ds

abbrev pub IsNat : ℤ → Type 0
IsNat (pos n) = Unit
IsNat (negsuc n) = ⊥

abbrev pub AllNat : List Distribution → Type 0
AllNat ds = All (λ d. IsNat d.amount) ds

natural_of_IsNat : (a : ℤ) → IsNat a → natural a ≡ returned (amount_ℕ a)
natural_of_IsNat (pos n) h = refl
natural_of_IsNat (negsuc n) h = absurd h

pub sum_of_AllNat : (ds : List Distribution) → AllNat ds → sum ds ≡ returned (total ds)
unfolding sum total
sum_of_AllNat [] h = refl
sum_of_AllNat (d ∷ ds) (h, hs) = rw (natural_of_IsNat d.amount h) (rw (sum_of_AllNat ds hs))

IsNat-of_natural : (a : ℤ) (n : ℕ) → natural a ≡ returned n → IsNat a × (amount_ℕ a ≡ n)
IsNat-of_natural (pos m) n h = (tt, ground arith)
IsNat-of_natural (negsuc m) n h = cc

pub AllNat-of_sum :
    (ds : List Distribution) (n : ℕ) → sum ds ≡ returned n → AllNat ds × (total ds ≡ n)
unfolding sum total
AllNat-of_sum [] n h = (tt, ground arith)
AllNat-of_sum (d ∷ ds) n h =
    let (a, ha, h') =
      >>=-eq-returned (natural d.amount) (λ a. sum ds >>= λ b. returned (a + b)) h in
    let (b, hb, e) = >>=-eq-returned (sum ds) (λ b. returned (a + b)) h' in
    let (na, ea) = IsNat-of_natural d.amount a ha in
    let (ns, es) = AllNat-of_sum ds b hb in
    let q : a + b ≡ n = ground arith in ((na, ns), omega (arith, ea, es, q))

pub total-append : (xs ys : List Distribution) → total (xs ++ ys) ≡ total xs + total ys
unfolding total
total-append [] ys = omega arith
total-append (x ∷ xs) ys = omega (arith, total-append xs ys)

pub AllNat-append : (xs ys : List Distribution) → AllNat xs → AllNat ys → AllNat (xs ++ ys)
AllNat-append [] ys h k = k
AllNat-append (x ∷ xs) ys (h, hs) k = (h, AllNat-append xs ys hs k)

-- What the filter drops adds nothing.
pub total-filter : (ds : List Distribution) → total (filter is_positive ds) ≡ total ds
unfolding total
total-filter [] = refl
total-filter (d ∷ ds) = ground (arith, total-filter ds)

pub AllNat-filter : (ds : List Distribution) → AllNat ds → AllNat (filter is_positive ds)
AllNat-filter [] h = tt
AllNat-filter (d ∷ ds) (h, hs) = ground (arith, AllNat-filter ds hs)

total-map-give :
    (amount bound : ℕ) (xs : List Text)
    → amount ≤ bound
    → total (map (give amount) xs) ≤ length xs * bound
unfolding total
total-map-give amount bound [] h = omega arith
total-map-give amount bound (a ∷ xs) h = omega (arith, h, total-map-give amount bound xs h)

AllNat-map-give : (amount : ℕ) (xs : List Text) → AllNat (map (give amount) xs)
AllNat-map-give amount [] = tt
AllNat-map-give amount (a ∷ xs) = (tt, AllNat-map-give amount xs)

div-mul-le : (n d : ℕ) → d * (n / d) ≤ n
div-mul-le n d = omega arith

module _ (remaining max_balance : ℕ) (accounts nodes : List Text) where
  -- The generated accounts receive at most what remains.
  pub total-generated_accounts :
      total (generated_accounts remaining max_balance accounts nodes) ≤ remaining
  unfolding generated_accounts
  total-generated_accounts =
      let n = length accounts + length nodes in
      let per = remaining / n in
      omega (
        arith,
        total-append (map (give per) accounts) (map (give (min max_balance per)) nodes),
        total-map-give per per accounts (omega arith),
        total-map-give (min max_balance per) per nodes (omega arith),
        div-mul-le remaining n,
      )

  pub AllNat-generated_accounts : AllNat (generated_accounts remaining max_balance accounts nodes)
  unfolding generated_accounts
  AllNat-generated_accounts =
      let per = remaining / (length accounts + length nodes) in
      AllNat-append (map (give per) accounts) (map (give (min max_balance per)) nodes)
        (AllNat-map-give per accounts) (AllNat-map-give (min max_balance per) nodes)
