-- ===== src/Config/Seed/Valid.antt =====
-- All nodes start from one valid seed.
use symbol_bootstrap.Base.{
  Bool, true, false, ◌&&◌, Option, none, some, List, [], ◌∷◌, ◌≡◌, refl, ap, ap₂, map, arith, ◌⊎◌,
  inl, inr, Bool-cases,
}
use symbol_bootstrap.Base.Text.{Text}
use symbol_bootstrap.Base.Result.{returned, >>=-eq-returned, >>-eq-returned}
use symbol_bootstrap.Config.Seed.{
  SeedFolder, empty_folder, validate_seed_folder, SeedPreset, SeedMachine, should_create_nemesis,
  over, copy_seed, made, resolve_nemesis, copy_to_nodes, copy_nemesis, distribute_seed,
}

over-none : (o : Option Text) → over o none ≡ o
over-none none = refl
over-none (some t) = refl

copy_seed-empty : (seed : SeedFolder) → copy_seed seed empty_folder ≡ seed
unfolding copy_seed
copy_seed-empty seed =
    ap₂ (λ d i. record { data_file = d; index_file = i }) (over-none seed.data_file)
      (over-none seed.index_file)

copy_to_nodes-map :
    (seed : SeedFolder) (nodes : List Text)
    → copy_to_nodes seed nodes ≡ map (λ node. (node, seed)) nodes
unfolding copy_to_nodes
copy_to_nodes-map seed [] = refl
copy_to_nodes-map seed (node ∷ nodes) =
    ap₂ (λ s rest. (node, s) ∷ rest) (copy_seed-empty seed) (copy_to_nodes-map seed nodes)

made-valid :
    (old : Option SeedFolder) (seed : SeedFolder)
    → made old ≡ seed
    → validate_seed_folder (some seed) ≡ returned tt
    → old ≡ some seed
unfolding validate_seed_folder
made-valid none seed e valid = let bad = rw (← e) at valid in ground arith
made-valid (some folder) seed e valid = ap some e

resolve_nemesis-kept :
    (machine : SeedMachine) (preset : SeedPreset) (is_upgrade : Bool) (old : Option SeedFolder)
    (seed : SeedFolder)
    → resolve_nemesis machine preset is_upgrade old ≡ returned seed
    → validate_seed_folder (some seed) ≡ returned tt
    → ((should_create_nemesis machine preset && is_upgrade) ≡ false) ⊎ (old ≡ some seed)
unfolding resolve_nemesis
resolve_nemesis-kept machine preset false old seed h valid =
    inl (and_false (should_create_nemesis machine preset))
  where
    and_false : (b : Bool) → (b && false) ≡ false
    and_false true = refl
    and_false false = refl
resolve_nemesis-kept machine preset true old seed h valid =
    elim (Bool-cases (should_create_nemesis machine preset)) [
      | inl t ↦
          let kept : made old ≡ seed = ground (arith, rw t at h) in
          inr (made-valid old seed kept valid)
      | inr f ↦ inl (rw f refl)
    ]

-- When the seed is resolved and given to the nodes, it is a valid seed folder, and each node has a copy
-- of it: all nodes have the same nemesis block. Where the network makes its own nemesis block and is
-- upgraded, it is the one that was there before.
pub distribute_seed-valid :
    (machine : SeedMachine) (preset : SeedPreset) (is_upgrade : Bool) (old : Option SeedFolder)
    (nodes : List Text) (seed : SeedFolder) (copies : List (Text × SeedFolder))
    → distribute_seed machine preset is_upgrade old nodes ≡ returned (seed, copies)
    → (validate_seed_folder (some seed) ≡ returned tt)
      × (copies ≡ map (λ node. (node, seed)) nodes)
      × (((should_create_nemesis machine preset && is_upgrade) ≡ false) ⊎ (old ≡ some seed))
unfolding distribute_seed copy_nemesis
distribute_seed-valid machine preset is_upgrade old nodes seed copies h =
    let (found, resolved, h') =
      >>=-eq-returned (resolve_nemesis machine preset is_upgrade old) _ h in
    let (made_copies, copied, h'') = >>=-eq-returned (copy_nemesis found nodes) _ h' in
    let (valid, to_nodes) = >>-eq-returned (validate_seed_folder (some found)) _ copied in
    let same : found ≡ seed = ground (arith, h'') in
    let copies_same : copy_to_nodes found nodes ≡ copies = ground (arith, h'', to_nodes) in
    let valid_seed : validate_seed_folder (some seed) ≡ returned tt = rw (← same) valid in
    (
      valid_seed,
      rw (← copies_same) (rw (← same) (copy_to_nodes-map found nodes)),
      resolve_nemesis-kept machine preset is_upgrade old seed (rw (← same) resolved) valid_seed,
    )
