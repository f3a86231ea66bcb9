-- ===== src/Voting/Folder.antt =====
-- `loadVotingFiles` of src/service/VotingUtils.ts, and the folder that it reads: the entries in
-- the order of `readdirSync`, each with its bytes.
pub mod Sorted
use symbol_bootstrap.Base.{
  ℕ, Bool, true, false, ◌&&◌, Option, none, some, List, [], ◌∷◌, ◌++◌, filter, not, leb,
  if◌then◌else◌,
}
use symbol_bootstrap.Base.Text.{Text, text, text_eq, starts_with, ends_with}
use symbol_bootstrap.Base.Result.{Result, returned, raised, ◌>>=◌}
use symbol_bootstrap.Voting.File.{Bytes, Convert, VotingKeyAccount, read_voting_file}

pub record DirEntry : Type 0 where
  pub name : Text
  pub is_file : Bool
  pub content : Bytes

abbrev pub Folder : Type 0
Folder = List DirEntry

-- `VotingKeyFile`
pub record VotingKeyFile : Type 0 where
  pub account : VotingKeyAccount
  pub open account use *
  pub filename : Text

unfoldable pub is_voting_file : DirEntry → Bool
is_voting_file e =
    e.is_file && starts_with e.name (text "private_key_tree") && ends_with e.name (text ".dat")

-- The sort by the start epoch, which keeps the order of equal ones.
unfoldable pub insert_by_start : VotingKeyFile → List VotingKeyFile → List VotingKeyFile
insert_by_start x [] = x ∷ []
insert_by_start x (y ∷ ys) =
    if leb x.start_epoch y.start_epoch then x ∷ y ∷ ys else y ∷ insert_by_start x ys

unfoldable pub sort_by_start : List VotingKeyFile → List VotingKeyFile
sort_by_start [] = []
sort_by_start (x ∷ xs) = insert_by_start x (sort_by_start xs)

module _ (c : Convert) where
  unfoldable pub read_voting_files : Folder → Result (List VotingKeyFile)
  read_voting_files [] = returned []
  read_voting_files (e ∷ es) =
      let rest = read_voting_files es in
      if is_voting_file e
      then (do
        account ← read_voting_file c e.content
        files ← rest
        returned (record { account = account; filename = e.name } ∷ files))
      else rest

  -- `none` is a folder that does not exist.
  unfoldable pub load_voting_files : Option Folder → Result (List VotingKeyFile)
  load_voting_files none = returned []
  load_voting_files (some folder) = do
    files ← read_voting_files folder
    returned (sort_by_start files)

-- `writeFileSync`: an entry with the name is overwritten.
unfoldable pub write_file : Folder → Text → Bytes → Folder
write_file [] name content = record { name = name; is_file = true; content = content } ∷ []
write_file (e ∷ es) name content =
    if text_eq e.name name
    then record { name = name; is_file = true; content = content } ∷ es
    else e ∷ write_file es name content

-- `deleteFile` of src/service/FileSystemService.ts, which ignores a name that is not there.
unfoldable pub delete_file : Folder → Text → Folder
delete_file folder name = filter (λ e. not (e.is_file && text_eq e.name name)) folder
