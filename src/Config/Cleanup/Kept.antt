-- ===== src/Config/Cleanup/Kept.antt =====
-- What is left of the folder of a gateway.
use symbol_bootstrap.Base.{
  Bool, true, false, ◌||◌, none, some, List, [], ◌∷◌, ◌≡◌, refl, ap, ap₂, ◌∙◌, map, All, Bool-cases,
  inl, inr, if◌then◌else◌,
}
use symbol_bootstrap.Base.Text.{Text, text_eq}
use symbol_bootstrap.Config.Cleanup.{
  Entries, no_entries, entry, FileNode, plain_file, folder, unless_empty, keep_entry, is_excluded,
  delete_entries, delete_node, delete_folder, clean_up_gateway,
}

-- The entries of a folder with certain names, as they are.
unfoldable pub only_named : (Text → Bool) → Entries → Entries
only_named p no_entries = no_entries
only_named p (entry n node es) =
    let rest = only_named p es in if p n then entry n node rest else rest

-- How `join` treats the paths of folders, the names in a folder and the paths of more than one name.
pub record PathLaws (join : Text → Text → Text) (IsPath IsName IsLong : Text → Type 0)
    : Type 0 where
  pub join-IsPath : (path n : Text) → IsPath path → IsName n → IsPath (join path n)
  pub join_name :
      (path n m : Text)
      → IsPath path
      → IsName n
      → IsName m
      → text_eq (join path n) (join path m) ≡ text_eq n m
  pub join-IsLong : (path n : Text) → IsPath path → IsName n → IsLong (join path n)
  pub join_long-IsLong : (path long : Text) → IsPath path → IsLong long → IsLong (join path long)
  pub join_other :
      (path n long : Text)
      → IsPath path
      → IsName n
      → IsLong long
      → text_eq (join path n) (join path long) ≡ false

module _ (IsName : Text → Type 0) where
  unfoldable mutual
    -- All names in a folder are names.
    pub AreNames : Entries → Type 0
    AreNames no_entries = Unit {0}
    AreNames (entry n node es) = IsName n × HasNames node × AreNames es

    pub HasNames : FileNode → Type 0
    HasNames (plain_file t) = Unit {0}
    HasNames (folder es) = AreNames es

module _ (join : Text → Text → Text) (IsPath IsName IsLong : Text → Type 0)
    (laws : PathLaws join IsPath IsName IsLong) where
  not_excluded :
      (path n : Text) (longs : List Text)
      → IsPath path
      → IsName n
      → All IsLong longs
      → is_excluded join (join path n) (map (join path) longs) ≡ false
  not_excluded path n [] p name _ = refl
  not_excluded path n (l ∷ longs) p name (long, h) =
      rw (laws.join_other path n l p name long) (not_excluded path n longs p name h)

  joined-IsLong :
      (path : Text) (longs : List Text)
      → IsPath path
      → All IsLong longs
      → All IsLong (map (join path) longs)
  joined-IsLong path [] p _ = tt
  joined-IsLong path (l ∷ longs) p (long, h) =
      (laws.join_long-IsLong path l p long, joined-IsLong path longs p h)

  mutual
    unfolding AreNames delete_entries

    -- Below the folder nothing is excluded.
    entries_deleted :
        (path : Text) (longs : List Text) (es : Entries)
        → IsPath path
        → AreNames IsName es
        → All IsLong longs
        → delete_entries join path (map (join path) longs) es ≡ no_entries
    entries_deleted path longs no_entries p names h = refl
    entries_deleted path longs (entry n node es) p (name, inside, names) h =
        rw (not_excluded path n longs p name h) (
          ap₂ (λ o rest. keep_entry n o rest)
            (node_deleted (join path n) (map (join path) longs) node
              (laws.join-IsPath path n p name) inside (joined-IsLong path longs p h))
            (entries_deleted path longs es p names h))

    node_deleted :
        (path : Text) (longs : List Text) (node : FileNode)
        → IsPath path
        → HasNames IsName node
        → All IsLong longs
        → delete_node join path (map (join path) longs) node ≡ none
    node_deleted path longs (plain_file t) p names h = refl
    node_deleted path longs (folder es) p names h =
        ap unless_empty (entries_deleted path longs es p names h)

  -- The paths of two files of the folder.
  two_excluded :
      (path n key certificate : Text)
      → IsPath path
      → IsName n
      → IsName key
      → IsName certificate
      → is_excluded join (join path n) (join path key ∷ join path certificate ∷ [])
        ≡ (text_eq n key || text_eq n certificate)
  two_excluded path n key certificate p name k c =
      ap₂ (λ a b. a || (b || false)) (laws.join_name path n key p name k)
        (laws.join_name path n certificate p name c)
      ∙ ap (λ b. text_eq n key || b) (or_false (text_eq n certificate))
    where
      or_false : (b : Bool) → (b || false) ≡ b
      or_false true = refl
      or_false false = refl

  module _ (path key certificate : Text) (p : IsPath path) (k : IsName key)
      (c : IsName certificate) where
    abbrev exclude_files : List Text
    exclude_files = join path key ∷ join path certificate ∷ []

    abbrev is_kept : Text → Bool
    is_kept n = text_eq n key || text_eq n certificate

    entries_kept :
        (es : Entries)
        → AreNames IsName es
        → delete_entries join path exclude_files es ≡ only_named is_kept es
    unfolding delete_entries only_named AreNames
    entries_kept no_entries names = refl
    entries_kept (entry n node es) (name, inside, names) =
        rw (two_excluded path n key certificate p name k c) (elim (Bool-cases (is_kept n)) [
          | inl t ↦ rw t (ap (λ rest. entry n node rest) (entries_kept es names))
          | inr f ↦ rw f (
              ap₂ (λ o rest. keep_entry n o rest)
                (node_deleted (join path n) exclude_files node (laws.join-IsPath path n p name)
                  inside
                  (laws.join-IsLong path key p k, (laws.join-IsLong path certificate p c, tt)))
                (entries_kept es names))
        ])

    pub clean_up_gateway-only_named :
        (es : Entries)
        → AreNames IsName es
        → clean_up_gateway join path key certificate (some es)
          ≡ unless_empty (only_named (λ n. text_eq n key || text_eq n certificate) es)
    unfolding clean_up_gateway delete_folder
    clean_up_gateway-only_named es names = ap unless_empty (entries_kept es names)
