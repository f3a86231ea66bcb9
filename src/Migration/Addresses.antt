-- ===== src/Migration/Addresses.antt =====
-- The migration of addresses.yml: `getAddressesMigration`. The accounts that
-- `Account.generateNewAccount` makes are an argument, one for each node.
use symbol_bootstrap.Base.{
  ℕ, suc, ◌≡◌, refl, Option, none, some, List, [], ◌∷◌, or_first, or_else, Bool, false, not, ◌==◌,
  if◌then◌else◌, ap, sym, Bool-cases, inl, inr, arith, ◌∙◌, All,
}
use symbol_bootstrap.Base.Text.{Text}
use symbol_bootstrap.Base.Result.{Result, returned, raised, error, Result-cases, ◌>>=◌}
use symbol_bootstrap.Account.{
  Keys, Sdk, account, ConfigAccount, to_config_account, to_config_account_from_keys,
}
use symbol_bootstrap.Migration.{Versioned, Migration, migrate, migrate_from, apply_migrations}
use symbol_bootstrap.Migration.Steps.{
  VersionedLaws, migrate_twice, migrate-known, migrate_from-current,
}
use symbol_bootstrap.Migration.Unversioned.{IgnoresVersion}
use symbol_bootstrap.Account.Node.{KeyPreset}

-- The keys of a node, by the names of both versions.
pub record NodeAddresses : Type 0 where
  pub signing : Option ConfigAccount
  pub ssl : Option Text
  pub node : Option KeyPreset
  pub main_account : Option ConfigAccount
  pub transport_account : Option ConfigAccount

abbrev public_of : Option KeyPreset → Option Text
public_of none = none
public_of (some k) = k.public_key

abbrev private_of : Option KeyPreset → Option Text
private_of none = none
private_of (some k) = k.private_key

-- The main account; `ssl` is its private key.
unfoldable pub main_of : Sdk → NodeAddresses → Result (Option ConfigAccount)
main_of sdk n = elim n.signing [
  | some a ↦ returned (some a)
  | none ↦ elim n.ssl [
    | some private_key ↦ do
      k ← sdk.create_from_private_key private_key
      returned (some (to_config_account (account k)))
    | none ↦ returned n.main_account
  ]
]

unfoldable pub migrate_node : Sdk → Keys → NodeAddresses → Result NodeAddresses
migrate_node sdk fresh n = do
  main_account ← main_of sdk n
  transport_account ← to_config_account_from_keys sdk (public_of n.node) (private_of n.node)
  returned (record {
    signing = none;
    ssl = none;
    node = none;
    main_account = main_account;
    transport_account = or_first transport_account (some (to_config_account (account fresh)));
  })

unfoldable pub migrate_nodes :
    Sdk → (ℕ → Keys) → ℕ → List NodeAddresses → Result (List NodeAddresses)
migrate_nodes sdk fresh index [] = returned []
migrate_nodes sdk fresh index (n ∷ ns) = do
  m ← migrate_node sdk (fresh index) n
  ms ← migrate_nodes sdk fresh (suc index) ns
  returned (m ∷ ms)

-- The part of `Addresses` that is migrated; the network type is undefined or a number.
pub record Addresses : Type 0 where
  pub version : Option ℕ
  pub network_type : Option ℕ
  pub nodes : List NodeAddresses

abbrev pub addresses_version : Versioned Addresses
addresses_version = record {
  version = λ a. a.version;
  set_version = λ n a. record { version = some n; network_type = a.network_type; nodes = a.nodes };
}

-- An SDK for each network type.
unfoldable pub get_addresses_migration : (ℕ → Sdk) → (ℕ → Keys) → ℕ → List (Migration Addresses)
get_addresses_migration sdk fresh network_type =
    (λ from. do
      nodes ← migrate_nodes (sdk network_type) fresh 0 from.nodes
      returned (
          some
            (record { version = from.version; network_type = from.network_type; nodes = nodes })))
    ∷ []

abbrev is_number : Option ℕ → Bool
is_number none = false
is_number (some n) = not (n == 0)

unfoldable pub migrate_addresses : (ℕ → Sdk) → (ℕ → Keys) → Addresses → Result (Option Addresses)
migrate_addresses sdk fresh addresses =
    if is_number addresses.network_type
    then migrate addresses_version
        (get_addresses_migration sdk fresh (or_else addresses.network_type 0)) (some addresses)
    else raised (error "networkType must exist on current addresses.yml")

addresses_version-VersionedLaws : VersionedLaws addresses_version
addresses_version-VersionedLaws = record {
  set_version_twice = λ n m a. refl;
  version-set_version = λ n a. refl;
  set_version_same = λ n a e.
      ap (λ o. record { version = o; network_type = a.network_type; nodes = a.nodes }) (sym e);
}

-- The migration of the program keeps the version of its data and does not read it.
get_addresses_migration-IgnoresVersion :
    (sdk : ℕ → Sdk) (fresh : ℕ → Keys) (network_type : ℕ)
    → All (IgnoresVersion addresses_version) (get_addresses_migration sdk fresh network_type)
unfolding get_addresses_migration
get_addresses_migration-IgnoresVersion sdk fresh network_type = (
  λ n a. elim (Result-cases (migrate_nodes (sdk network_type) fresh 0 a.nodes)) [
    | inl (nodes, e) ↦ rw e refl
    | inr (x, e) ↦ rw e refl
  ],
  tt,
)

migrate_addresses-network_type :
    (sdk : ℕ → Sdk) (fresh : ℕ → Keys) (before after : Addresses)
    → migrate_addresses sdk fresh before ≡ returned (some after)
    → after.network_type ≡ before.network_type
unfolding migrate_addresses migrate migrate_from apply_migrations get_addresses_migration
migrate_addresses-network_type sdk fresh before after h = ground arith

-- Migrated addresses have version 2, and when they are loaded again they are left as they are,
-- whatever accounts are generated then.
pub migrate_addresses_twice :
    (sdk : ℕ → Sdk) (fresh later : ℕ → Keys) (before after : Addresses)
    → migrate_addresses sdk fresh before ≡ returned (some after)
    → (after.version ≡ some 2) × (migrate_addresses sdk later after ≡ returned (some after))
unfolding migrate_addresses get_addresses_migration
migrate_addresses_twice sdk fresh later before after h =
    let same = migrate_addresses-network_type sdk fresh before after h in
    elim (Bool-cases (is_number before.network_type)) [
      | inl e ↦
          let network = or_else before.network_type 0 in
          let (current, _) =
            migrate_twice addresses_version addresses_version-VersionedLaws
              (get_addresses_migration sdk fresh network) before after (rw e at h) in
          (
            current,
            rw (ap is_number same ∙ e) (
                migrate-known addresses_version addresses_version-VersionedLaws
                  (get_addresses_migration sdk later (or_else after.network_type 0)) 1 after current
                ∙ ap (λ m. m >>= λ b. returned (some b))
                    (migrate_from-current addresses_version addresses_version-VersionedLaws
                      (get_addresses_migration sdk later (or_else after.network_type 0)) after)),
          )
      | inr e ↦ cc (rw e at h)
    ]
