-- ===== src/Migration/Examples.antt =====
-- Data that is a number with a version, and two migrations.
use symbol_bootstrap.Base.{
  ℕ, ◌+◌, ◌*◌, ◌≡◌, refl, ap, sym, Option, none, some, List, [], ◌∷◌, ◌++◌, arith,
}
use symbol_bootstrap.Base.Text.{Text, text}
use symbol_bootstrap.Base.Result.{returned, ◌>>=◌}
use symbol_bootstrap.Account.{
  Keys, Sdk, account, to_config_account, to_account, to_config_account_from_keys,
}
use symbol_bootstrap.Migration.{Versioned, Migration, apply_migrations, migrate_from, migrate}
use symbol_bootstrap.Migration.Addresses.{
  NodeAddresses, main_of, migrate_node, migrate_nodes, Addresses, get_addresses_migration,
  migrate_addresses, migrate_addresses_twice,
}
use symbol_bootstrap.Migration.Steps.{VersionedLaws}
use symbol_bootstrap.Migration.Upgrade.{migrate-append}

pub record Data : Type 0 where
  pub data_version : Option ℕ
  pub number : ℕ

abbrev versioned : Versioned Data
versioned = record {
  version = λ d. d.data_version;
  set_version = λ n d. record { data_version = some n; number = d.number };
}

laws : VersionedLaws versioned
laws = record {
  set_version_twice = λ n m a. refl;
  version-set_version = λ n a. refl;
  set_version_same = λ n a e. ap (λ o. record { data_version = o; number = a.number }) (sym e);
}

abbrev double : Migration Data
double d = returned (some (record { data_version = d.data_version; number = 2 * d.number }))

abbrev increase : Migration Data
increase d = returned (some (record { data_version = d.data_version; number = 1 + d.number }))

abbrev old : Data
old = record { data_version = none; number = 10 }

abbrev new : Data
new = record { data_version = some 3; number = 21 }

abbrev both : List (Migration Data)
both = double ∷ increase ∷ []

migrated : migrate versioned both (some old) ≡ returned (some new)
unfolding migrate migrate_from apply_migrations
migrated = refl

migrate-append_example :
    migrate versioned both (some old)
    ≡ (migrate versioned (double ∷ []) (some old) >>= migrate versioned both)
migrate-append_example =
    migrate-append versioned laws (double ∷ []) (increase ∷ []) old (λ n a. refl, tt) (omega arith)

-- Two nodes of an old addresses file, the second without a node key.
abbrev keys : Text → Keys
keys t = record { private_key = t; public_key = text "P" ++ t; address = text "AP" ++ t }

abbrev sdk : Sdk
sdk = record {
  create_from_private_key = λ t. returned (keys t);
  create_from_public_key = λ t. returned (record { public_key = t; address = text "A" ++ t });
}

abbrev first_node : NodeAddresses
first_node = record {
  signing = some (to_config_account (account (keys (text "1"))));
  ssl = some (text "2");
  node = some (record { public_key = none; private_key = some (text "3") });
  main_account = none;
  transport_account = none;
}

abbrev second_node : NodeAddresses
second_node = record {
  signing = none;
  ssl = some (text "4");
  node = none;
  main_account = none;
  transport_account = none;
}

abbrev new_node : Text → Text → NodeAddresses
new_node main transport = record {
  signing = none;
  ssl = none;
  node = none;
  main_account = some (to_config_account (account (keys main)));
  transport_account = some (to_config_account (account (keys transport)));
}

abbrev before : Addresses
before = record { version = none; network_type = some 152; nodes = first_node ∷ second_node ∷ [] }

abbrev after : Addresses
after = record {
  version = some 2;
  network_type = some 152;
  nodes = new_node (text "1") (text "3") ∷ new_node (text "4") (text "9") ∷ [];
}

addresses_migrated :
    migrate_addresses (λ _. sdk) (λ _. keys (text "9")) before ≡ returned (some after)
unfolding migrate_addresses get_addresses_migration migrate migrate_from apply_migrations
    migrate_nodes migrate_node main_of to_config_account_from_keys to_account to_config_account
addresses_migrated = refl

migrate_addresses_twice_example :
    (after.version ≡ some 2)
    × (migrate_addresses (λ _. sdk) (λ _. keys (text "8")) after ≡ returned (some after))
migrate_addresses_twice_example =
    migrate_addresses_twice (λ _. sdk) (λ _. keys (text "9")) (λ _. keys (text "8")) before after
      addresses_migrated
