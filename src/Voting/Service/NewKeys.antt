-- ===== src/Voting/Service/NewKeys.antt =====
-- What the service does to the voting keys of a node.
use symbol_bootstrap.Base.{
  ℕ, ◌+◌, ◌-◌, ◌≤◌, ◌<◌, ◌≡◌, refl, ◌∙◌, Bool, true, false, not, ◌&&◌, ◌||◌, Option, List, [], ◌∷◌,
  ◌++◌, length, ltb, max, or_else, arith, le→ltb_false, All, inl, inr, ◌⊎◌,
}
use symbol_bootstrap.Base.Text.{Text, text}
use symbol_bootstrap.Base.Result.{returned}
use symbol_bootstrap.Voting.File.{Bytes, Convert, Implementation}
use symbol_bootstrap.Voting.File.Layout.{ConvertLaws, ImplementationLaws}
use symbol_bootstrap.Voting.Folder.{
  Folder, VotingKeyFile, load_voting_files, read_voting_files, sort_by_start, delete_file,
}
use symbol_bootstrap.Voting.Folder.Sorted.{IsChain, last_end, IsFresh}
use symbol_bootstrap.Voting.Service.{
  VotingPreset, Provider, native_provider, Outcome, network_epoch, max_voting_key_end_epoch,
  private_key_tree_file_name, create_new_file, run,
}
use symbol_bootstrap.Voting.Service.NewFile.{
  last_end-eq, network_epoch-pos, files, new_file, new_entry, create_new_file-appends, IsChain-new,
}

-- is no key yet.
abbrev pub IsDue : VotingPreset → Option ℕ → Option Bool → List VotingKeyFile → Type 0
IsDue preset current update files =
    (max_voting_key_end_epoch files (network_epoch preset current)
      ≤ network_epoch preset current + preset.voting_key_desired_future_lifetime)
    × ((or_else update preset.auto_update_voting_keys ≡ true) ⊎ (length files ≡ 0))

-- The test by which `run` leaves the keys alone.
IsDue-test :
    (preset : VotingPreset) (current : Option ℕ) (update : Option Bool) (files : List VotingKeyFile)
    → IsDue preset current update files
    → (ltb
          (network_epoch preset current + preset.voting_key_desired_future_lifetime)
          (max_voting_key_end_epoch files (network_epoch preset current))
        || not (or_else update preset.auto_update_voting_keys) && ltb 0 (length files))
      ≡ false
IsDue-test preset current update files (h, due) =
    rw
      (le→ltb_false (network_epoch preset current + preset.voting_key_desired_future_lifetime)
        (max_voting_key_end_epoch files (network_epoch preset current)) h)
      (elim due [ inl u ↦ rw u | inr n ↦ rw n (ground arith) ])

module _ (c : Convert) (provider : Provider) (preset : VotingPreset) (current : Option ℕ)
    (update : Option Bool) (folder : Folder) (stored voting : List VotingKeyFile)
    (is_voting : preset.voting ≡ true)
    (future : preset.voting_key_desired_future_lifetime ≤ preset.voting_key_desired_lifetime)
    (read : read_voting_files c (delete_file folder (text "metadata.yml")) ≡ returned stored)
    (due : IsDue preset current update (sort_by_start stored)) where
  run-create :
      run c provider preset current update folder voting
      ≡ create_new_file c provider preset
          (sort_by_start stored)
          (max_voting_key_end_epoch (sort_by_start stored) (network_epoch preset current))
          (delete_file folder (text "metadata.yml"))
  unfolding run load_voting_files
  run-create = simp (
    is_voting,
    le→ltb_false preset.voting_key_desired_lifetime preset.voting_key_desired_future_lifetime
        future,
    read,
    IsDue-test preset current update (sort_by_start stored) due,
  )

module _ (c : Convert) (crypto : Implementation) (limit : ℕ) (laws : ConvertLaws c limit)
    (sizes : ImplementationLaws crypto) (secret public_key : Text) (keys : List Bytes)
    (sized : All (λ k. length k ≡ 32) keys) (preset : VotingPreset)
    (is_voting : preset.voting ≡ true) (counted : length keys ≡ preset.voting_key_desired_lifetime)
    (some_lifetime : 0 < preset.voting_key_desired_lifetime)
    (future : preset.voting_key_desired_future_lifetime ≤ preset.voting_key_desired_lifetime)
    (current : Option ℕ) (update : Option Bool) (folder : Folder)
    (stored voting : List VotingKeyFile)
    (read : read_voting_files c (delete_file folder (text "metadata.yml")) ≡ returned stored)
    (chain : IsChain (sort_by_start stored))
    (due : IsDue preset current update (sort_by_start stored))
    (fresh : IsFresh
      (private_key_tree_file_name (sort_by_start stored))
      (delete_file folder (text "metadata.yml")))
    (convertible : max_voting_key_end_epoch (sort_by_start stored) (network_epoch preset current)
        + preset.voting_key_desired_lifetime
      < limit) where
  -- A node whose key files follow one another without overlap, and that is due for a new one, gets
  -- one more key file behind them: its epochs begin behind those of the last file, and not before
  -- the network's current epoch, so that the files still follow one another without overlap, and it
  -- lasts for the desired lifetime. This is with the native provider, a desired lifetime that is
  -- positive and no shorter than the future one, a file name that is not taken, and epochs that the
  -- SDK can convert.
  pub run_adds_next_key :
      (o : Outcome) × (z : VotingKeyFile) × (run c
          (native_provider c crypto (secret, public_key) keys)
          preset
          current
          update
          folder
          voting
        ≡ returned o)
      × (o.created ≡ true)
      × (o.voting ≡ sort_by_start stored ++ z ∷ [])
      × IsChain o.voting
      × (network_epoch preset current ≤ z.start_epoch)
      × (z.end_epoch + 1 ≡ z.start_epoch + preset.voting_key_desired_lifetime)
  run_adds_next_key =
      let m = max_voting_key_end_epoch (sort_by_start stored) (network_epoch preset current) in
      let kept = delete_file folder (text "metadata.yml") in
      let bound : m ≡ max (last_end (sort_by_start stored)) (network_epoch preset current - 1) =
        last_end-eq (sort_by_start stored) (network_epoch preset current) in
      let after : last_end (sort_by_start stored) ≤ m = omega (arith, bound) in
      let z =
        new_file c crypto limit laws sizes secret public_key keys sized preset counted kept stored
          read chain fresh m after convertible some_lifetime in
      (
        record {
          folder =
              kept
              ++ new_entry c crypto limit laws sizes secret public_key keys sized preset counted
                  kept stored read chain fresh m after convertible some_lifetime
                ∷ [];
          voting = sort_by_start stored ++ z ∷ [];
          created = true;
        },
        z,
        run-create c (native_provider c crypto (secret, public_key) keys) preset current update
              folder stored voting is_voting future read due
            ∙ create_new_file-appends c crypto limit laws sizes secret public_key keys sized preset
                counted kept stored read chain fresh m after convertible some_lifetime,
        refl,
        refl,
        IsChain-new c crypto limit laws sizes secret public_key keys sized preset counted kept
            stored read chain fresh m after convertible some_lifetime,
        omega (arith, bound, network_epoch-pos preset current),
        omega arith,
      )
