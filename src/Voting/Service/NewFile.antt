-- ===== src/Voting/Service/NewFile.antt =====
-- The key file that `createNewFile` adds to a folder.
use symbol_bootstrap.Base.{
  ℕ, ◌+◌, ◌-◌, ◌≤◌, ◌<◌, ◌≡◌, refl, ap, true, Option, some, List, [], ◌∷◌, ◌++◌, length, max, arith,
  append_assoc, All, All-map,
}
use symbol_bootstrap.Base.Text.{Text, text, text_eq_refl, ends_with, starts_with-append}
use symbol_bootstrap.Base.Decimal.{decimal}
use symbol_bootstrap.Base.Result.{returned}
use symbol_bootstrap.Voting.File.{Bytes, Convert, Implementation, VotingKeyAccount}
use symbol_bootstrap.Voting.File.Layout.{
  ConvertLaws, ImplementationLaws, layout, create_voting_file-eq-layout,
}
use symbol_bootstrap.Voting.File.RoundTrip.{read-layout}
use symbol_bootstrap.Voting.Folder.{
  DirEntry, Folder, VotingKeyFile, is_voting_file, load_voting_files, read_voting_files,
  sort_by_start,
}
use symbol_bootstrap.Voting.Folder.Sorted.{
  IsChain, last_end, All-start-le-last_end, IsChain-append, All-of-sort, sort-append, IsFresh,
  write_file-fresh, read_voting_files-append,
}
use symbol_bootstrap.Voting.Service.{
  VotingPreset, native_provider, network_epoch, max_voting_key_end_epoch,
  private_key_tree_file_name, create_new_file,
}

ends_with_self : (p : Text) → ends_with p p ≡ true
unfolding ends_with
ends_with_self [] = refl
ends_with_self (a ∷ p) = rw (text_eq_refl (a ∷ p))

ends_with-append : (s p : Text) → ends_with (s ++ p) p ≡ true
unfolding ends_with
ends_with-append [] p = ends_with_self p
ends_with-append (a ∷ s) p = ground (arith, ends_with-append s p)

is_voting_file-new :
    (files : List VotingKeyFile) (content : Bytes)
    → is_voting_file
        (record { name = private_key_tree_file_name files; is_file = true; content = content })
      ≡ true
unfolding is_voting_file private_key_tree_file_name
is_voting_file-new files content =
    rw (starts_with-append (text "private_key_tree") (decimal (length files + 1) ++ text ".dat")) (
      rw (← append_assoc (text "private_key_tree") (decimal (length files + 1)) (text ".dat"))
        (ends_with-append (text "private_key_tree" ++ decimal (length files + 1)) (text ".dat")))

pub last_end-eq :
    (files : List VotingKeyFile) (epoch : ℕ)
    → max_voting_key_end_epoch files epoch ≡ max (last_end files) (epoch - 1)
unfolding max_voting_key_end_epoch
last_end-eq [] epoch = refl
last_end-eq (f ∷ []) epoch = refl
last_end-eq (f ∷ g ∷ fs) epoch = last_end-eq (g ∷ fs) epoch

pub network_epoch-pos :
    (preset : VotingPreset) (current : Option ℕ) → 0 < network_epoch preset current
unfolding network_epoch
network_epoch-pos preset current = ground arith

-- The account of a new file: the epochs behind all others, as many as desired.
abbrev new_account : VotingPreset → ℕ → Text → VotingKeyAccount
new_account preset max_end public_key = record {
  start_epoch = max_end + 1;
  end_epoch = max_end + preset.voting_key_desired_lifetime;
  public_key = public_key;
}

module _ (c : Convert) (crypto : Implementation) (limit : ℕ) (laws : ConvertLaws c limit)
    (sizes : ImplementationLaws crypto) (secret public_key : Text) (keys : List Bytes)
    (sized : All (λ k. length k ≡ 32) keys) (preset : VotingPreset)
    (counted : length keys ≡ preset.voting_key_desired_lifetime) (folder : Folder)
    (stored : List VotingKeyFile) (read : read_voting_files c folder ≡ returned stored)
    (chain : IsChain (sort_by_start stored))
    (fresh : IsFresh (private_key_tree_file_name (sort_by_start stored)) folder) (max_end : ℕ)
    (after : last_end (sort_by_start stored) ≤ max_end)
    (convertible : max_end + preset.voting_key_desired_lifetime < limit)
    (some_lifetime : 0 < preset.voting_key_desired_lifetime) where
  abbrev pub files : List VotingKeyFile
  files = sort_by_start stored

  abbrev root_public_key : Text
  root_public_key =
      c.bytes_to_hex (crypto.create_key_pair_from_private_key (c.hex_to_bytes secret)).public_key

  abbrev pub new_file : VotingKeyFile
  new_file = record {
    account = new_account preset max_end root_public_key;
    filename = private_key_tree_file_name files;
  }

  abbrev pub new_entry : DirEntry
  new_entry = record {
    name = private_key_tree_file_name files;
    is_file = true;
    content =
        layout c crypto limit laws sizes
          (crypto.create_key_pair_from_private_key (c.hex_to_bytes secret)) (max_end + 1)
          (max_end + preset.voting_key_desired_lifetime) keys;
  }

  All-start-le-new : All (λ f. f.start_epoch ≤ max_end + 1) stored
  All-start-le-new =
      All-of-sort (λ f. f.start_epoch ≤ max_end + 1) stored
        (All-map (λ f. f.start_epoch ≤ last_end files) (λ f. f.start_epoch ≤ max_end + 1)
          (λ f h. omega (arith, h)) files (All-start-le-last_end files chain))

  load_voting_files-new :
      load_voting_files c (some (folder ++ new_entry ∷ [])) ≡ returned (files ++ new_file ∷ [])
  unfolding load_voting_files
  load_voting_files-new =
      rw
        (read_voting_files-append c folder new_entry (new_account preset max_end root_public_key)
          (is_voting_file-new files new_entry.content)
          (read-layout c crypto limit laws sizes
            (crypto.create_key_pair_from_private_key (c.hex_to_bytes secret)) (max_end + 1)
            (max_end + preset.voting_key_desired_lifetime) keys (sizes.length_public_key _)
            (omega (arith, convertible, some_lifetime)) convertible (omega arith)
            (omega (arith, counted)) sized))
        (rw read (ap returned (sort-append stored new_file All-start-le-new)))

  pub create_new_file-appends :
      create_new_file c
        (native_provider c crypto (secret, public_key) keys)
        preset
        files
        max_end
        folder
      ≡ returned (record {
        folder = folder ++ new_entry ∷ [];
        voting = files ++ new_file ∷ [];
        created = true;
      })
  unfolding create_new_file native_provider
  create_new_file-appends =
      rw
        (create_voting_file-eq-layout c crypto limit laws sizes secret (max_end + 1)
          (max_end + preset.voting_key_desired_lifetime) keys (omega arith) (omega (arith, counted))
          sized)
        (rw (write_file-fresh folder (private_key_tree_file_name files) new_entry.content fresh)
          (rw load_voting_files-new))

  pub IsChain-new : IsChain (files ++ new_file ∷ [])
  IsChain-new = IsChain-append files new_file chain (omega (arith, after)) (omega arith)

-- When the node has to have a new key: it is not up to date, and an update is asked for or there
