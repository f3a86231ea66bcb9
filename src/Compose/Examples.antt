-- ===== src/Compose/Examples.antt =====
-- The services, the file and the names of docker-compose on concrete presets.
use symbol_bootstrap.Base.{
  true, false, none, some, List, [], ◌∷◌, ◌++◌, ◌≡◌, refl, map, inl, filter, ◌↔◌, ◌&&◌, ap, all,
  ◌⊎◌,
}
use symbol_bootstrap.Base.Text.{text, text_eq, starts_with}
use symbol_bootstrap.Base.Result.{Result, returned, raised}
use symbol_bootstrap.Value.{undefined, obj, str, Fields, field, no_fields}
use symbol_bootstrap.Preset.{lookup, set_field, spread_fields}
use symbol_bootstrap.Compose.{
  no_port, port_flag, port_number, port_text, PortConfiguration, is_open, host_port, vol,
  resolve_ports, strings, strings_value, fields, resolve_service, resolved_raw,
  resolve_debug_options,
}
use symbol_bootstrap.Compose.Presets.{ConfigPreset}
use symbol_bootstrap.Compose.Services.{
  included, database_entries, node_entries, broker_entries, broker_services, gateway_entries,
}
use symbol_bootstrap.Compose.Web.{
  to_simple_hex, proxy_entries, faucet_entries, compose_services, plain_services, services_in_turn,
  https_proxy_service, faucet_service, main_account_private_key, proxy_domains, resolve_host,
}
use symbol_bootstrap.Compose.File.{
  name_of, ComposeTools, ComposeParams, delete_folder_files, docker_compose, create, run_compose,
}
use symbol_bootstrap.Compose.File.Reused.{without_upgrade, LoadsDumped, run_compose-reused}
use symbol_bootstrap.Base.Decimal.{decimal}
use symbol_bootstrap.Run.{port_of, volume_folder}
use symbol_bootstrap.Yaml.{Files, write_text_file, write_yaml, sealed_object}
use symbol_bootstrap.Compose.Ports.{checked_ports}
use symbol_bootstrap.Compose.Https.{
  is_returned, has_domains, serves_faucets, is_returned-compose_services,
}
use symbol_bootstrap.Compose.Prune.{
  prune_value, prune_empty, AreFullFields, prune_empty-AreFullFields,
}
use symbol_bootstrap.Compose.Listed.{AllNamed, broker_names, expected_names, compose_services-names}
use symbol_bootstrap.Compose.Sample.{
  append_fields, override, override-MergesNames, plain_docker, example_preset, example_rest,
}

example_preset-AllNamed : AllNamed example_preset
example_preset-AllNamed = (
  (inl refl, (inl refl, tt)),
  (inl refl, tt),
  (inl refl, tt),
  (inl refl, tt),
  (inl refl, tt),
  tt,
  (inl refl, tt),
)

abbrev or_no_services : Result (List Fields) → List Fields
or_no_services (raised e) = []
or_no_services (returned services) = services

abbrev example_services : List Fields
example_services = or_no_services (compose_services override none example_rest example_preset)

example_services-returned :
    compose_services override none example_rest example_preset ≡ returned example_services
unfolding compose_services plain_services services_in_turn https_proxy_service faucet_service
    main_account_private_key proxy_domains resolve_host
example_services-returned = refl

compose_services-names_example : map name_of example_services ≡ expected_names example_preset
compose_services-names_example =
    compose_services-names override override-MergesNames none example_rest example_preset
      example_services example_preset-AllNamed example_services-returned

expected : expected_names example_preset ≡ (
    text "db-0"
    ∷ text "api-0"
    ∷ text "broker-0"
    ∷ text "rest-0"
    ∷ text "https-0"
    ∷ text "faucet-0"
    ∷ [])
unfolding broker_names
expected = refl

-- The node is published nowhere, the proxy at two ports.
published : map (λ s. lookup (text "ports") s) example_services ≡ (
    map
      (λ ports. some (strings_value ports))
      ([] ∷ [] ∷ [] ∷ (text "3000:3000" ∷ []) ∷ (text "80:80" ∷ text "3000:443" ∷ []) ∷ [] ∷ []))
unfolding compose_services plain_services services_in_turn https_proxy_service faucet_service
    main_account_private_key proxy_domains resolve_host lookup strings database_entries node_entries
    broker_entries gateway_entries proxy_entries faucet_entries broker_services fields
    resolve_service resolved_raw resolve_debug_options spread_fields set_field override
    append_fields text_eq resolve_ports host_port decimal
published = refl

is_returned_example : is_returned (compose_services override none example_rest example_preset) ≡ (
    all (has_domains example_preset) (included (λ n. n.docker) example_preset.https_proxies)
    && all
        (λ n. serves_faucets example_preset example_rest)
        (included (λ n. n.docker) example_preset.faucets))
is_returned_example = is_returned-compose_services override none example_rest example_preset

-- Without a gateway and domains, the proxy cannot be made.
no_domains :
    is_returned
      (compose_services override none example_rest (record example_preset { gateways = [] }))
    ≡ false
unfolding compose_services plain_services services_in_turn https_proxy_service faucet_service
    main_account_private_key proxy_domains resolve_host
no_domains = refl

-- Addresses with a mosaic without accounts make the faucet fail.
no_account :
    is_returned (
      compose_services override none
        (record example_rest { addresses = returned (some ([] ∷ [])) })
        example_preset)
    ≡ false
unfolding compose_services plain_services services_in_turn https_proxy_service faucet_service
    main_account_private_key proxy_domains resolve_host
no_account = refl

abbrev example_ports : List PortConfiguration
example_ports =
    record { internal_port = 7900; open_port = port_flag true }
    ∷ record { internal_port = 3000; open_port = port_number 8080 }
    ∷ record { internal_port = 4000; open_port = no_port }
    ∷ record { internal_port = 7902; open_port = port_text (text "true") }
    ∷ []

checked_ports_example :
    (map (λ bind. port_of bind) (resolve_ports example_ports)
      ≡ map host_port (filter (λ c. is_open c.open_port) example_ports))
    × (volume_folder (vol (text "./mongo") (text "/dbdata") true) ≡ text "./mongo")
checked_ports_example =
    checked_ports example_ports (text "./mongo") (text "/dbdata") true (tt, (tt, (tt, (refl, tt))))
      refl

example_binds :
    resolve_ports example_ports ≡ (text "7900:7900" ∷ text "8080:3000" ∷ text "7902:7902" ∷ [])
unfolding resolve_ports host_port decimal text_eq
example_binds = refl

-- A preset with an explorer only.
abbrev small_preset : ConfigPreset
small_preset = record example_preset {
  databases = [];
  nodes = [];
  gateways = [];
  https_proxies = [];
  explorers = record { name = text "explorer-0"; docker = plain_docker } ∷ [];
  faucets = [];
}

abbrev or_no_fields : Result Fields → Fields
or_no_fields (raised e) = no_fields
or_no_fields (returned o) = o

abbrev small_compose : Fields
small_compose = or_no_fields (docker_compose override none example_rest small_preset)

abbrev example_tools : ComposeTools
example_tools = record {
  Seed = Unit {0};
  seed = tt;
  seal = λ s t p. (t, s);
  unseal = λ t p. some t;
  dump = λ v. text "compose";
  load = λ t. returned (obj small_compose);
  merge = override;
}

example_tools-LoadsDumped : LoadsDumped example_tools none example_rest small_preset
example_tools-LoadsDumped created h full = ap (λ r. returned (obj (or_no_fields r))) h

abbrev example_params : ComposeParams
example_params = record { target_docker = text "target/docker"; upgrade = true }

abbrev example_files : Files
example_files =
    write_text_file (delete_folder_files (text "target/docker") (λ path. none))
      (text "target/docker/docker-compose.yml") (text "compose")

example_run :
    run_compose example_tools example_params none example_rest small_preset (λ path. none)
    ≡ returned (obj small_compose, example_files)
unfolding run_compose create docker_compose compose_services plain_services services_in_turn
    write_yaml sealed_object delete_folder_files starts_with
example_run = refl

run_compose-reused_example :
    (run_compose example_tools
        (without_upgrade example_params)
        (some (text "1000:1000"))
        example_rest
        example_preset
        example_files
      ≡ returned (obj small_compose, example_files))
    × ((example_params.upgrade ≡ false)
        ⊎ ((created : Fields) × (docker_compose override none example_rest small_preset
              ≡ returned created)
            × (obj small_compose ≡ obj created)))
run_compose-reused_example =
    run_compose-reused example_tools example_params none (some (text "1000:1000")) example_rest
      example_rest small_preset example_preset (λ path. none) example_files (obj small_compose)
      example_tools-LoadsDumped example_run

abbrev sparse : Fields
sparse = fields (
    (text "user", undefined)
    ∷ (text "ports", strings_value [])
    ∷ (text "name", str (text "db"))
    ∷ (text "networks", obj (fields ((text "default", obj no_fields) ∷ [])))
    ∷ [])

prune_empty-AreFullFields_example :
    AreFullFields (prune_empty sparse) × ((prune_empty sparse ≡ sparse) ↔ AreFullFields sparse)
prune_empty-AreFullFields_example = prune_empty-AreFullFields sparse

pruned : prune_empty sparse ≡ field (text "name") (str (text "db")) no_fields
unfolding prune_empty prune_value fields strings
pruned = refl

simple_hex : to_simple_hex (text "0x6BED'913F") ≡ text "6BED913F"
unfolding to_simple_hex starts_with
simple_hex = refl

commands : map (λ s. lookup (text "command") s) example_services ≡ (
    map
      (λ t. some (str t))
      (text "mongod --dbpath=/dbdata --bind_ip=db-0 --quiet"
        ∷ text
            "/bin/bash /symbol-commands/start.sh /usr/catapult ./data server broker api-0 NORMAL true"
        ∷ text
            "/bin/bash /symbol-commands/start.sh /usr/catapult ./data broker server broker-0 NORMAL"
        ∷ text "npm start --prefix /app /symbol-workdir/rest.json"
        ∷ [])
    ++ none ∷ none ∷ [])
unfolding compose_services plain_services services_in_turn https_proxy_service faucet_service
    main_account_private_key proxy_domains resolve_host lookup strings database_entries node_entries
    broker_entries gateway_entries proxy_entries faucet_entries broker_services fields
    resolve_service resolved_raw resolve_debug_options spread_fields set_field override
    append_fields text_eq
commands = refl
