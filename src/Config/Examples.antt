-- ===== src/Config/Examples.antt =====
-- Peers, transactions and seeds of concrete networks.
use symbol_bootstrap.Base.{
  ℕ, zero, suc, Bool, true, false, ◌&&◌, Option, none, some, List, [], ◌∷◌, ◌++◌, ◌≡◌, refl, ◌≤◌,
  ◌+◌, All, All-map, length, map, take, arith, if◌then◌else◌, ◌⊎◌,
}
use mathlib.Core.List.{Memᴰ}
use symbol_bootstrap.Base.Text.{
  Text, text, text_eq, starts_with, contains, ends_with, to_lower_case, lower_unit, is_empty,
}
use symbol_bootstrap.Base.Counting.{count}
use symbol_bootstrap.Base.Result.{Result, returned, raised, error, type_error}
use symbol_bootstrap.Yaml.{is_yml_file}
use symbol_bootstrap.Account.{ConfigAccount}
use symbol_bootstrap.Account.Node.{KeyPreset, NodePreset, NodeAccount, resolve_roles}
use symbol_bootstrap.Remote.Service.{PeerInfo}
use symbol_bootstrap.Action.{done}
use symbol_bootstrap.Config.{
  local_peer, local_peers, uniq_by_key, all_peers, other_peers, generate_p2p_file, peer_files,
}
use symbol_bootstrap.Config.Peers.{IsSample, IsOther, peer_files-IsOther}
use symbol_bootstrap.Config.Genesis.{
  vrf_key_link, account_key_link, voting_key_link, LinkTransaction, ConfigSdk, NemesisNode, Stored,
  generate_transactions,
}
use symbol_bootstrap.Config.Genesis.Stored.{
  included_nodes, flat_map, provided_files, transaction_files,
}
use symbol_bootstrap.Config.Genesis.Links.{generate_transactions-done}
use symbol_bootstrap.Config.Seed.{
  SeedFolder, SeedPreset, SeedMachine, validate_seed_folder, should_create_nemesis, resolve_nemesis,
  copy_seed, copy_to_nodes, copy_nemesis, distribute_seed,
}
use symbol_bootstrap.Config.Seed.Valid.{distribute_seed-valid}

abbrev config_account : Text → ConfigAccount
config_account t = record { private_key = none; public_key = t; address = text "A" ++ t }

abbrev node_account : Text → NodeAccount
node_account t = record {
  node_name = t;
  friendly_name = t;
  roles = text "Peer";
  main_account = config_account t;
  transport_account = config_account t;
  remote_account = none;
  vrf_account = none;
}

abbrev no_keys : KeyPreset
no_keys = record { public_key = none; private_key = none }

abbrev node_preset : NodePreset
node_preset = record {
  name = none;
  friendly_name = none;
  roles = some (text "Peer,Api");
  syncsource = true;
  api = false;
  is_voting = false;
  harvesting = false;
  node_use_remote_account = false;
  main_keys = no_keys;
  transport_keys = no_keys;
  remote_keys = no_keys;
  vrf_keys = no_keys;
}

abbrev outside : Text → PeerInfo
outside t = record {
  peer_public_key = t;
  peer_host = t;
  peer_port = 7900;
  peer_name = t;
  peer_roles = text "Peer,Voting";
}

abbrev known : List PeerInfo
known =
    outside (text "B")
    ∷ local_peer node_preset none (node_account (text "A"))
    ∷ local_peer node_preset none (node_account (text "C"))
    ∷ []

-- A sample that is the beginning of the list.
first_peers-IsSample : IsSample (λ peers n. take n peers)
first_peers-IsSample peers n = (short peers n, all_members peers n)
  where
    short : (ps : List PeerInfo) (m : ℕ) → length (take m ps) ≤ m
    short ps zero = omega arith
    short [] (suc m) = omega arith
    short (p ∷ ps) (suc m) = omega (arith, short ps m)

    all_members : (ps : List PeerInfo) (m : ℕ) → All (λ p. Memᴰ p ps) (take m ps)
    all_members ps zero = tt
    all_members [] (suc m) = tt
    all_members (p ∷ ps) (suc m) = (
      Memᴰ.head refl,
      All-map (λ q. Memᴰ q ps) (λ q. Memᴰ q (p ∷ ps)) (λ q found. Memᴰ.tail found) (take m ps)
          (all_members ps m),
    )

peer_files-IsOther_example :
    let (p2p, api) = peer_files (λ peers n. take n peers) 1 5 (node_account (text "A")) known in
    (length p2p ≤ 1)
    × All (IsOther (text "Peer") (node_account (text "A")) known) p2p
    × (length api ≤ 5)
    × All (IsOther (text "Api") (node_account (text "A")) known) api
peer_files-IsOther_example =
    peer_files-IsOther (λ peers n. take n peers) first_peers-IsSample 1 5 (node_account (text "A"))
      known

files_of_node :
    peer_files (λ peers n. take n peers) 1 5 (node_account (text "A")) known
    ≡ (outside (text "B") ∷ [], local_peer node_preset none (node_account (text "C")) ∷ [])
unfolding peer_files other_peers generate_p2p_file contains starts_with text_eq local_peer
    resolve_roles
files_of_node = refl

abbrev presets : List (NodePreset × Option Text)
presets = (node_preset, none) ∷ (node_preset, none) ∷ []

network_peers :
    all_peers
      (outside (text "B") ∷ outside (text "A") ∷ [])
      presets
      (node_account (text "A") ∷ node_account (text "C") ∷ [])
    ≡ returned (
        outside (text "B")
        ∷ outside (text "A")
        ∷ local_peer node_preset none (node_account (text "C"))
        ∷ [])
unfolding all_peers local_peers uniq_by_key text_eq local_peer
network_peers = refl

-- Links as texts; the hash of a payload is its beginning.
abbrev example_sdk : ConfigSdk
example_sdk = record {
  Signer = Text;
  sign = λ signer link. elim link [
    | vrf_key_link key ↦ signer ++ text " vrf " ++ key
    | account_key_link key ↦ signer ++ text " remote " ++ key
    | voting_key_link key first last ↦ signer ++ text " voting " ++ key
  ];
  check_payload = λ payload. if is_empty payload then raised type_error else returned tt;
  write_outcome = λ name payload. returned tt;
  transaction_hash = λ payload. take 2 payload;
}

abbrev nemesis_node : Text → Bool → NemesisNode
nemesis_node name excluded = record {
  name = name;
  main_public_key = text "M";
  vrf_public_key = some (text "V");
  remote_public_key = none;
  voting =
      record { public_key = text "K1"; start_epoch = 1; end_epoch = 10 }
      ∷ record { public_key = text "K2"; start_epoch = 11; end_epoch = 20 }
      ∷ [];
  excluded = excluded;
}

abbrev all_nodes : List NemesisNode
all_nodes = nemesis_node (text "n0") false ∷ nemesis_node (text "n1") true ∷ []

abbrev provided : List (Text × Text)
provided = (text "a", text "AA1") ∷ (text "b", text "BB1") ∷ (text "c", text "AA2") ∷ []

-- The folder is empty before, and the only account is that of the first node.
abbrev resolve_first : Text → Text → Result Text
resolve_first name key =
    if text_eq name (text "n0") then returned key else raised (error "Account is not resolved.")

signed_payload :
    (account : Text) (link : LinkTransaction)
    → example_sdk.check_payload (example_sdk.sign account link) ≡ returned tt
signed_payload [] (vrf_key_link key) = refl
signed_payload (c ∷ account) (vrf_key_link key) = refl
signed_payload [] (account_key_link key) = refl
signed_payload (c ∷ account) (account_key_link key) = refl
signed_payload [] (voting_key_link key first last) = refl
signed_payload (c ∷ account) (voting_key_link key first last) = refl

first_resolved :
    All
      (λ n. resolve_first n.name n.main_public_key ≡ returned n.main_public_key)
      (included_nodes all_nodes)
unfolding text_eq
first_resolved = (refl, tt)

files_written :
    All
      (λ file. let (name, payload) = file in example_sdk.write_outcome name payload ≡ returned tt)
      (transaction_files example_sdk (λ name key. key) (included_nodes all_nodes) provided)
unfolding flat_map provided_files text_eq
files_written = (refl, (refl, (refl, (refl, (refl, tt)))))

abbrev is_voting : Text × Text → Bool
is_voting (name, payload) = text_eq name (text "voting_n0.bin")

generate_transactions-done_example :
    (t : Stored) × (generate_transactions example_sdk resolve_first all_nodes provided []
      ≡ done tt t)
    × (count is_voting t
        ≡ count is_voting
            (transaction_files example_sdk (λ name key. key) (included_nodes all_nodes) provided)
          + count is_voting [])
generate_transactions-done_example =
    generate_transactions-done example_sdk (λ name key. key) resolve_first signed_payload all_nodes
      provided [] is_voting first_resolved (refl, (refl, (refl, tt))) files_written

-- The second voting key of the node is stored over the first one.
stored_files :
    transaction_files example_sdk (λ name key. key) (included_nodes all_nodes) provided ≡ (
      (text "vrf_n0.bin", text "M vrf V")
      ∷ (text "voting_n0.bin", text "M voting K1")
      ∷ (text "voting_n0.bin", text "M voting K2")
      ∷ (text "a.bin", text "AA1")
      ∷ (text "b.bin", text "BB1")
      ∷ [])
unfolding flat_map provided_files text_eq
stored_files = refl

abbrev example_seed : SeedFolder
example_seed = record { data_file = some (text "data"); index_file = some (text "index") }

abbrev seed_machine : SeedMachine
seed_machine = record {
  seed_at = λ path. none;
  preset_seed = λ preset. if text_eq preset (text "testnet") then some example_seed else none;
  generated = returned example_seed;
}

abbrev testnet : SeedPreset
testnet = record { preset = text "testnet"; has_nemesis = false; nemesis_seed_folder = none }

abbrev both : List (Text × SeedFolder)
both = (text "n0", example_seed) ∷ (text "n1", example_seed) ∷ []

distributed :
    distribute_seed seed_machine testnet true none (text "n0" ∷ text "n1" ∷ [])
    ≡ returned (example_seed, both)
unfolding distribute_seed resolve_nemesis should_create_nemesis copy_nemesis copy_to_nodes copy_seed
    validate_seed_folder is_yml_file ends_with to_lower_case lower_unit text_eq
distributed = refl

distribute_seed-valid_example :
    (validate_seed_folder (some example_seed) ≡ returned tt)
    × (both ≡ map (λ node. (node, example_seed)) (text "n0" ∷ text "n1" ∷ []))
    × (((should_create_nemesis seed_machine testnet && true) ≡ false) ⊎ (none ≡ some example_seed))
distribute_seed-valid_example =
    distribute_seed-valid seed_machine testnet true none (text "n0" ∷ text "n1" ∷ []) example_seed
      both distributed
