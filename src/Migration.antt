-- ===== src/Migration.antt =====
-- src/service/MigrationService.ts: data of an old version is brought to the current one.
--
-- The data is of any type that has a version: `none` is an undefined one. `undefined` data, which a
-- migration may return, is `none` too.
pub mod Steps
pub mod Unversioned
pub mod Upgrade
pub mod Addresses
mod Examples
use symbol_bootstrap.Base.{
  ℕ, ◌+◌, ◌-◌, ◌≡◌, Bool, true, false, Option, none, some, List, [], ◌∷◌, length, drop, ltb, ◌==◌,
  if◌then◌else◌,
}
use symbol_bootstrap.Base.Result.{Result, returned, raised, error, type_error, ◌>>=◌}

-- The field `version` of the data.
pub record Versioned (A : Type 0) : Type 0 where
  pub version : A → Option ℕ
  pub set_version : ℕ → A → A

-- `migrate` of a `Migration`.
abbrev pub Migration : Type 0 → Type 0
Migration A = A → Result (Option A)

-- `version || 1`
abbrev pub known_version : Option ℕ → ℕ
known_version none = 1
known_version (some n) = if n == 0 then 1 else n

module _ {A : Type 0} (versioned : Versioned A) where
  open versioned use {version, set_version}

  -- The `reduce`: no migration is applied to data that is undefined.
  unfoldable pub apply_migrations : List (Migration A) → Option A → Result (Option A)
  apply_migrations [] o = returned o
  apply_migrations (m ∷ ms) none = apply_migrations ms none
  apply_migrations (m ∷ ms) (some a) = do b ← m a; apply_migrations ms b

  -- `migratedVersioned.version = currentVersion`
  abbrev pub stamp : ℕ → Option A → Result A
  stamp current none = raised type_error
  stamp current (some a) = returned (set_version current a)

  -- The body of `migrate` for data that is there, whose version is known.
  unfoldable pub migrate_from : List (Migration A) → ℕ → A → Result A
  migrate_from migrations v a =
      let current = length migrations + 1 in
      if v == current
      then returned a
      else if ltb current v
      then raised (error "Current data version is but higher version is")
      else do b ← apply_migrations (drop (v - 1) migrations) (some a); stamp current b

  unfoldable pub migrate : List (Migration A) → Option A → Result (Option A)
  migrate migrations none = returned none
  migrate migrations (some a) = do
    b ←
        migrate_from migrations (known_version (version a))
          (set_version (known_version (version a)) a)
    returned (some b)
