-- ===== src/Config/Cleanup.antt =====
-- `deleteFolder` of src/service/FileSystemService.ts, and what `cleanUpConfiguration` of
-- src/service/ConfigService.ts does with it to the folder of a gateway. `join` of two paths is a
-- parameter; a link is a file.
pub mod Kept
pub mod Paths
mod Examples
use symbol_bootstrap.Base.{Bool, Option, none, some, List, [], ◌∷◌, map, any, if◌then◌else◌}
use symbol_bootstrap.Base.Text.{Text, text_eq}

mutual
  -- What a folder holds, by name.
  pub data Entries : Type 0 where
    no_entries : Entries
    entry : Text → FileNode → Entries → Entries

  pub data FileNode : Type 0 where
    plain_file : Text → FileNode
    folder : Entries → FileNode

-- A folder that is empty is removed.
abbrev pub unless_empty : Entries → Option FileNode
unless_empty no_entries = none
unless_empty (entry n node es) = some (folder (entry n node es))

abbrev pub keep_entry : Text → Option FileNode → Entries → Entries
keep_entry n none es = es
keep_entry n (some node) es = entry n node es

module _ (join : Text → Text → Text) where
  abbrev pub is_excluded : Text → List Text → Bool
  is_excluded path exclude_files = any (text_eq path) exclude_files

  unfoldable mutual
    -- The loop of `deleteFolderRecursive` over a folder at a path.
    pub delete_entries : Text → List Text → Entries → Entries
    delete_entries path exclude_files no_entries = no_entries
    delete_entries path exclude_files (entry n node es) =
        let rest = delete_entries path exclude_files es in
        let deleted = delete_node (join path n) (map (join (join path n)) exclude_files) node in
        if is_excluded (join path n) exclude_files
        then entry n node rest
        else keep_entry n deleted rest

    -- What is left at a path that is not excluded.
    pub delete_node : Text → List Text → FileNode → Option FileNode
    delete_node path exclude_files (plain_file t) = none
    delete_node path exclude_files (folder es) = unless_empty (delete_entries path exclude_files es)

  -- `deleteFolder`
  unfoldable pub delete_folder : Text → List Text → Option Entries → Option FileNode
  delete_folder path exclude_files none = none
  delete_folder path exclude_files (some es) = unless_empty (delete_entries path exclude_files es)

  -- What `cleanUpConfiguration` leaves of the folder of a gateway, by the file names of the SSL key and
  -- the SSL certificate.
  unfoldable pub clean_up_gateway : Text → Text → Text → Option Entries → Option FileNode
  clean_up_gateway config_folder key_file certificate_file es =
      delete_folder config_folder
        (join config_folder key_file ∷ join config_folder certificate_file ∷ []) es
