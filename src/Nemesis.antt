-- ===== src/Nemesis.antt =====
-- `processNemesisBalances` of src/service/AddressesService.ts: how the supply of a mosaic of a new
-- network is given out to the generated accounts, to the nodes and to the addresses of the preset.
-- The accounts that the SDK generates for the mosaic are an argument, by their addresses. Amounts
-- are whole numbers that a JavaScript number holds exactly.
pub mod Sums
pub mod Positive
pub mod Supply
mod Examples
use symbol_bootstrap.Base.{
  ℕ, ◌+◌, ◌-◌, ◌*◌, ◌/◌, ◌^◌, zero, suc, Bool, true, false, ◌&&◌, ◌||◌, Option, none, some, List,
  [], ◌∷◌, ◌++◌, map, filter, length, drop, get_elem?, ltb, leb, ◌==◌, min, if◌then◌else◌,
}
use symbol_bootstrap.Base.Int.{ℤ, pos, negsuc}
use symbol_bootstrap.Base.Text.{Text}
use symbol_bootstrap.Base.Result.{Result, returned, raised, error, type_error, guard, ◌>>=◌, ◌>>◌}

-- `CurrencyDistribution`
pub record Distribution : Type 0 where
  pub address : Text
  pub amount : ℤ

-- The fields of a `NodePreset` that matter here; a missing `balances` is the empty list.
pub record NodePreset : Type 0 where
  pub balances : List ℤ
  pub exclude_from_nemesis : Bool

pub record MosaicPreset : Type 0 where
  pub supply : ℕ
  pub currency_distributions : List Distribution

abbrev pub natural : ℤ → Result ℕ
natural (pos n) = returned n
natural (negsuc n) = raised (error "Nemesis distribution balance cannot be less than 0.")

unfoldable pub sum : List Distribution → Result ℕ
sum [] = returned 0
sum (d ∷ ds) = do a ← natural d.amount; b ← sum ds; returned (a + b)

abbrev balance_of : Option NodePreset → ℕ → Option ℤ
balance_of none mosaic_index = none
balance_of (some node) mosaic_index = elim (get_elem? node.balances mosaic_index) [
  | some balance ↦ some balance
  | none ↦ if node.exclude_from_nemesis then some (pos 0) else none
]

unfoldable pub get_balance : List NodePreset → ℕ → ℕ → Option ℤ
get_balance nodes mosaic_index node_index = balance_of (get_elem? nodes node_index) mosaic_index

abbrev push_balance : Text → Option ℤ → List Distribution → List Distribution
push_balance address none ds = ds
push_balance address (some b) ds = record { address = address; amount = b } ∷ ds

abbrev keep_dynamic : Text → Option ℤ → List Text → List Text
keep_dynamic address none nodes = address ∷ nodes
keep_dynamic address (some b) nodes = nodes

module _ (presets : List NodePreset) (mosaic_index : ℕ) where
  -- The nodes are their main addresses, from the index on.
  unfoldable pub node_distributions : ℕ → List Text → List Distribution
  node_distributions index [] = []
  node_distributions index (node ∷ nodes) =
      push_balance node (get_balance presets mosaic_index index)
        (node_distributions (suc index) nodes)

  unfoldable pub node_main_accounts : ℕ → List Text → List Text
  node_main_accounts index [] = []
  node_main_accounts index (node ∷ nodes) =
      keep_dynamic node (get_balance presets mosaic_index index)
        (node_main_accounts (suc index) nodes)

abbrev pub max_safe_integer : ℕ
max_safe_integer = 2 ^ 53 - 1

unfoldable pub get_max_harvester_balance : ℕ → ℕ → ℕ → ℕ
get_max_harvester_balance max_harvester_balance mosaics mosaic_index =
    if mosaics == 1 && mosaic_index == 0 || ltb 1 mosaics && mosaic_index == 1
    then max_harvester_balance
    else max_safe_integer

abbrev pub give : ℕ → Text → Distribution
give amount address = record { address = address; amount = pos amount }

abbrev pub is_positive : Distribution → Bool
is_positive d = elim d.amount [ pos n ↦ ltb 0 n | negsuc n ↦ false ]

-- `m.currencyDistributions[0].amount = amount`
abbrev pub set_first : ℕ → List Distribution → Result (List Distribution)
set_first amount [] = raised type_error
set_first amount (d ∷ ds) = returned (record d { amount = pos amount } ∷ ds)

-- One account for each address, and as much for each as there is. Division by zero is `Infinity` or
-- NaN in the program, which no account then receives.
unfoldable pub generated_accounts : ℕ → ℕ → List Text → List Text → List Distribution
generated_accounts remaining max_balance accounts nodes =
    let per_account = remaining / (length accounts + length nodes) in
    map (give per_account) accounts ++ map (give (min max_balance per_account)) nodes

-- The last test of the round.
unfoldable pub check_supply : ℕ → List Distribution → Result (List Distribution)
check_supply supply distributions = do
  supplied ← sum distributions
  guard (supply == supplied) (error "Invalid nemgen total supplied value")
  returned distributions

-- The generated and the provided distributions together, the first one with what is left over.
unfoldable pub give_out : ℕ → ℕ → List Distribution → List Distribution → Result (List Distribution)
unfolding check_supply
give_out supply provided_supply generated provided = do
  generated_supply ← sum (drop 1 generated)
  distributions ←
      set_first (supply - provided_supply - generated_supply)
        (filter is_positive (generated ++ provided))
  check_supply supply distributions

-- The part of the round behind the provided distributions.
unfoldable pub distribute :
    ℕ → List Distribution → ℕ → List Text → List Text → Result (List Distribution)
distribute supply provided max_balance accounts nodes = do
  provided_supply ← sum provided
  guard (leb provided_supply supply)
      (error "fixed distributed supply is grater than mosaic total supply")
  give_out supply provided_supply
      (generated_accounts (supply - provided_supply) max_balance accounts nodes) provided

-- One round of the loop over the mosaics: the new `currencyDistributions`.
unfoldable pub process_mosaic :
    List NodePreset → ℕ → ℕ → MosaicPreset → List Text → List Text → Result (List Distribution)
process_mosaic presets max_balance mosaic_index m accounts nodes =
    distribute m.supply
      (m.currency_distributions ++ node_distributions presets mosaic_index 0 nodes) max_balance
      accounts (node_main_accounts presets mosaic_index 0 nodes)

-- The loop over the mosaics of the nemesis preset, each with its generated accounts.
module _ (presets : List NodePreset) (max_harvester_balance mosaics : ℕ) (nodes : List Text) where
  unfoldable pub process_nemesis_balances :
      ℕ → List (MosaicPreset × List Text) → Result (List MosaicPreset)
  process_nemesis_balances index [] = returned []
  process_nemesis_balances index ((m, accounts) ∷ rest) = do
    distributions ←
        process_mosaic presets (get_max_harvester_balance max_harvester_balance mosaics index) index
          m accounts nodes
    others ← process_nemesis_balances (suc index) rest
    returned (record m { currency_distributions = distributions } ∷ others)
