-- ===== src/Nemesis/Examples.antt =====
-- A mosaic with a supply of 1000, one generated account, and three nodes.
use symbol_bootstrap.Base.{
  ◌-◌, ◌≤◌, ◌≡◌, refl, false, true, List, [], ◌∷◌, ◌++◌, arith, drop, filter,
}
use symbol_bootstrap.Base.Int.{pos, negsuc}
use symbol_bootstrap.Base.Text.{Text, text}
use symbol_bootstrap.Base.Result.{returned, raised, error}
use symbol_bootstrap.Nemesis.{
  Distribution, NodePreset, MosaicPreset, give, sum, is_positive, get_balance, node_distributions,
  node_main_accounts, generated_accounts, check_supply, give_out, distribute, process_mosaic,
}
use symbol_bootstrap.Nemesis.Sums.{total}
use symbol_bootstrap.Nemesis.Supply.{distribute_whole_supply}

abbrev plain : NodePreset
plain = record { balances = []; exclude_from_nemesis = false }

abbrev excluded : NodePreset
excluded = record { balances = []; exclude_from_nemesis = true }

abbrev rich : NodePreset
rich = record { balances = pos 100 ∷ []; exclude_from_nemesis = false }

abbrev presets : List NodePreset
presets = plain ∷ excluded ∷ rich ∷ []

abbrev nodes : List Text
nodes = text "A" ∷ text "B" ∷ text "C" ∷ []

abbrev mosaic : MosaicPreset
mosaic = record { supply = 1000; currency_distributions = give 1 (text "D") ∷ [] }

abbrev made : List Distribution
made = give 599 (text "G") ∷ give 300 (text "A") ∷ give 1 (text "D") ∷ give 100 (text "C") ∷ []

process_mosaic_run : process_mosaic presets 300 0 mosaic (text "G" ∷ []) nodes ≡ returned made
unfolding process_mosaic distribute give_out check_supply sum generated_accounts node_distributions
    node_main_accounts get_balance
process_mosaic_run = refl

abbrev provided : List Distribution
provided = give 1 (text "D") ∷ give 0 (text "E") ∷ []

provided_fits : total provided ≤ 1000
unfolding total
provided_fits = omega arith

enough_left : 2 ≤ 1000 - total provided
unfolding total
enough_left = omega arith

distribute_whole_supply_example :
    (first : Distribution) × (rest : List Distribution) × (distribute 1000 provided 300
        (text "G" ∷ [])
        (text "A" ∷ [])
      ≡ returned (first ∷ rest))
    × (sum (first ∷ rest) ≡ returned 1000)
    × (rest
        ≡ drop 1 (generated_accounts (1000 - total provided) 300 (text "G" ∷ []) (text "A" ∷ []))
          ++ filter is_positive provided)
distribute_whole_supply_example =
    distribute_whole_supply 1000 provided 300 (text "G" ∷ []) (text "A" ∷ []) (tt, (tt, tt))
      provided_fits (omega arith) enough_left (omega arith)

negative_amount :
    sum (record { address = text "D"; amount = negsuc 0 } ∷ [])
    ≡ raised (error "Nemesis distribution balance cannot be less than 0.")
unfolding sum
negative_amount = refl
