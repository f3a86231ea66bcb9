-- ===== src/Voting/Service.antt =====
-- src/service/VotingService.ts: when a node gets a new voting key file, and the providers of
-- src/service/VotingKeyFileProvider.ts that write it.
pub mod NewFile
pub mod NewKeys
mod Examples
use symbol_bootstrap.Base.{
  ℕ, ◌+◌, ◌-◌, Bool, true, false, not, ◌&&◌, ◌||◌, Option, none, some, List, [], ◌∷◌, ◌++◌, length,
  ltb, ◌==◌, max, get_last?, or_else, if◌then◌else◌,
}
use symbol_bootstrap.Base.Text.{Text, text}
use symbol_bootstrap.Base.Decimal.{decimal}
use symbol_bootstrap.Base.Result.{Result, returned, raised, error, ◌>>=◌}
use symbol_bootstrap.Voting.File.{Bytes, Convert, Implementation, create_voting_file}
use symbol_bootstrap.Voting.Folder.{
  Folder, VotingKeyFile, load_voting_files, write_file, delete_file,
}

-- The fields of `presetData` and `nodePreset` that the service reads.
pub record VotingPreset : Type 0 where
  pub voting : Bool
  pub last_known_network_epoch : ℕ
  pub auto_update_voting_keys : Bool
  pub voting_key_desired_lifetime : ℕ
  pub voting_key_desired_future_lifetime : ℕ

-- `createVotingFile` of a `VotingKeyFileProvider`: the folder, the name of the new file, and its
-- first and last epoch; what it returns is the folder afterwards and the public key.
abbrev pub Provider : Type 0
Provider = Folder → Text → ℕ → ℕ → Result (Folder × Text)

-- `Account.generateNewAccount` and the random bound keys are the last two arguments.
unfoldable pub native_provider : Convert → Implementation → Text × Text → List Bytes → Provider
native_provider c crypto (private_key, public_key) keys folder name start_epoch end_epoch = do
  file ← create_voting_file c crypto private_key start_epoch end_epoch keys
  returned (write_file folder name file, public_key)

-- What `run` returns, and what it leaves in the folder and in `nodeAccount.voting`.
pub record Outcome : Type 0 where
  pub folder : Folder
  pub voting : List VotingKeyFile
  pub created : Bool

-- `a || b` on numbers.
abbrev pub or_number : ℕ → ℕ → ℕ
or_number a b = if a == 0 then b else a

unfoldable pub network_epoch : VotingPreset → Option ℕ → ℕ
network_epoch preset current =
    or_number (or_else current 0) (or_number preset.last_known_network_epoch 1)

abbrev end_of_last : Option VotingKeyFile → ℕ
end_of_last none = 0
end_of_last (some f) = f.end_epoch

unfoldable pub max_voting_key_end_epoch : List VotingKeyFile → ℕ → ℕ
max_voting_key_end_epoch files epoch = max (end_of_last (get_last? files)) (epoch - 1)

unfoldable pub private_key_tree_file_name : List VotingKeyFile → Text
private_key_tree_file_name files =
    text "private_key_tree" ++ (decimal (length files + 1) ++ text ".dat")

module _ (c : Convert) (provider : Provider) where
  -- The part of `run` that makes a file.
  unfoldable pub create_new_file : VotingPreset → List VotingKeyFile → ℕ → Folder → Result Outcome
  create_new_file preset files max_end folder = do
    (after, public_key) ←
        provider folder (private_key_tree_file_name files) (max_end + 1)
          (max_end + preset.voting_key_desired_lifetime)
    loaded ← load_voting_files c (some after)
    returned (record { folder = after; voting = loaded; created = true })

  -- `folder` is the votingKeys folder, which `mkdir` has made; `voting` is `nodeAccount.voting`
  -- before the call.
  unfoldable pub run :
      VotingPreset → Option ℕ → Option Bool → Folder → List VotingKeyFile → Result Outcome
  run preset current update folder voting =
      let epoch = network_epoch preset current in
      let must_update = or_else update preset.auto_update_voting_keys in
      let kept = delete_file folder (text "metadata.yml") in
      if not preset.voting
      then returned (record { folder = folder; voting = voting; created = false })
      else if ltb preset.voting_key_desired_lifetime preset.voting_key_desired_future_lifetime
      then raised
          (error "votingKeyDesiredFutureLifetime cannot be greater than votingKeyDesiredLifetime")
      else do
        files ← load_voting_files c (some kept)
        (if ltb (epoch + preset.voting_key_desired_future_lifetime)
                (max_voting_key_end_epoch files epoch)
              || not must_update && ltb 0 (length files)
            then returned (record { folder = kept; voting = files; created = false })
            else create_new_file preset files (max_voting_key_end_epoch files epoch) kept)
