-- ===== src/Voting/Service/Examples.antt =====
-- A node with one key file for the epochs 2 to 4, at network epoch 3.
use symbol_bootstrap.Base.{
  ◌+◌, ◌≤◌, ◌<◌, ◌≡◌, refl, true, some, [], ◌∷◌, ◌++◌, arith, inl, replicate,
}
use symbol_bootstrap.Base.Text.{text, text_eq, starts_with, ends_with}
use symbol_bootstrap.Base.Decimal.{decimal}
use symbol_bootstrap.Base.Result.{returned}
use symbol_bootstrap.Voting.File.{read_voting_file}
use symbol_bootstrap.Voting.File.Layout.{layout}
use symbol_bootstrap.Voting.File.Examples.{
  small_convert, flat_crypto, small_convert_laws, flat_crypto_laws, three_keys,
}
use symbol_bootstrap.Voting.Folder.{
  DirEntry, Folder, VotingKeyFile, read_voting_files, delete_file, sort_by_start, is_voting_file,
  insert_by_start,
}
use symbol_bootstrap.Voting.Folder.Sorted.{IsChain, IsFresh}
use symbol_bootstrap.Voting.Service.{
  VotingPreset, Outcome, native_provider, network_epoch, max_voting_key_end_epoch,
  private_key_tree_file_name, run,
}
use symbol_bootstrap.Voting.Service.NewKeys.{IsDue, run_adds_next_key}

abbrev preset : VotingPreset
preset = record {
  voting = true;
  last_known_network_epoch = 1;
  auto_update_voting_keys = true;
  voting_key_desired_lifetime = 3;
  voting_key_desired_future_lifetime = 2;
}

abbrev first_file : DirEntry
first_file = record {
  name = text "private_key_tree1.dat";
  is_file = true;
  content =
      layout small_convert flat_crypto 256 small_convert_laws flat_crypto_laws
        (record { private_key = []; public_key = replicate 32 1 }) 2 4 three_keys;
}

abbrev folder : Folder
folder = record { name = text "metadata.yml"; is_file = true; content = [] } ∷ first_file ∷ []

abbrev first_key : VotingKeyFile
first_key = record {
  account = record { start_epoch = 2; end_epoch = 4; public_key = replicate 32 1 };
  filename = text "private_key_tree1.dat";
}

stored_key :
    read_voting_files small_convert (delete_file folder (text "metadata.yml"))
    ≡ returned (first_key ∷ [])
unfolding read_voting_files delete_file is_voting_file read_voting_file starts_with ends_with
    text_eq
stored_key = refl

epoch_three : network_epoch preset (some 3) ≡ 3
unfolding network_epoch
epoch_three = refl

sorted_key : sort_by_start (first_key ∷ []) ≡ first_key ∷ []
unfolding sort_by_start insert_by_start
sorted_key = refl

IsChain-key : IsChain (sort_by_start (first_key ∷ []))
unfolding sort_by_start insert_by_start
IsChain-key = omega arith

IsDue-key : IsDue preset (some 3) (some true) (sort_by_start (first_key ∷ []))
unfolding max_voting_key_end_epoch network_epoch sort_by_start insert_by_start
IsDue-key = (omega arith, inl refl)

IsFresh-name :
    IsFresh
      (private_key_tree_file_name (sort_by_start (first_key ∷ [])))
      (delete_file folder (text "metadata.yml"))
unfolding private_key_tree_file_name delete_file sort_by_start insert_by_start text_eq decimal
IsFresh-name = (refl, tt)

convertible_key :
    max_voting_key_end_epoch (sort_by_start (first_key ∷ [])) (network_epoch preset (some 3)) + 3
    < 256
unfolding max_voting_key_end_epoch network_epoch sort_by_start insert_by_start
convertible_key = omega arith

run_adds_next_key_example :
    (o : Outcome) × (z : VotingKeyFile) × (run small_convert
        (native_provider small_convert flat_crypto (text "ab", text "cd") three_keys)
        preset
        (some 3)
        (some true)
        folder
        []
      ≡ returned o)
    × (o.created ≡ true)
    × (o.voting ≡ sort_by_start (first_key ∷ []) ++ z ∷ [])
    × IsChain o.voting
    × (network_epoch preset (some 3) ≤ z.start_epoch)
    × (z.end_epoch + 1 ≡ z.start_epoch + 3)
run_adds_next_key_example =
    run_adds_next_key small_convert flat_crypto 256 small_convert_laws flat_crypto_laws (text "ab")
      (text "cd") three_keys (refl, (refl, (refl, tt))) preset refl refl (omega arith) (omega arith)
      (some 3) (some true) folder (first_key ∷ []) [] stored_key IsChain-key IsDue-key IsFresh-name
      convertible_key
