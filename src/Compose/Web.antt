-- ===== src/Compose/Web.antt =====
-- `run` of src/service/ComposeService.ts: the services of the https proxies, the explorers and the
-- faucets, which may fail, and all services in their order.
use symbol_bootstrap.Base.{
  ℕ, true, not, Option, none, some, List, [], ◌∷◌, ◌++◌, map, or_else, or_first, filter, drop, ◌==◌,
  if◌then◌else◌,
}
use symbol_bootstrap.Base.Text.{Text, text, starts_with}
use symbol_bootstrap.Base.Result.{Result, returned, raised, error, type_error, ◌>>=◌}
use symbol_bootstrap.Account.{truthy}
use symbol_bootstrap.Value.{Value, undefined, num, str, obj, Fields}
use symbol_bootstrap.Remote.{first_of}
use symbol_bootstrap.Compose.{
  port_flag, fields, strings_value, string_or_undefined, vol, resolve_ports, one_port,
}
use symbol_bootstrap.Compose.Presets.{
  NodePreset, GatewayPreset, HttpsProxyPreset, ExplorerPreset, FaucetPreset, ConfigPreset, Rest,
}
use symbol_bootstrap.Compose.Services.{
  included, service_of, database_service, node_service, broker_services, gateway_service,
}

abbrev number_or_undefined : Option ℕ → Value
number_or_undefined none = undefined
number_or_undefined (some n) = num n

abbrev node_host : Option NodePreset → Option Text
node_host none = none
node_host (some n) = truthy n.docker.host

-- `resolveHost` where it does not throw
abbrev pub proxy_host : ConfigPreset → HttpsProxyPreset → Option Text
proxy_host preset n = or_first (truthy n.docker.host) (node_host (first_of preset.nodes))

unfoldable pub resolve_host : ConfigPreset → HttpsProxyPreset → Result Text
resolve_host preset n = elim (proxy_host preset n) [
  | none ↦ raised (error "HTTPS Proxy is invalid, 'host' property could not be resolved.")
  | some host ↦ returned host
]

-- `resolveHttpsProxyDomains`
abbrev resolve_https_proxy_domains : Text → Text → Text
resolve_https_proxy_domains from_domain to_domain = from_domain ++ text " -> " ++ to_domain

-- The host is resolved once for every gateway: it fails for all or for none of them.
abbrev pub gateway_domains : ConfigPreset → HttpsProxyPreset → Option GatewayPreset → Result Text
gateway_domains preset n none =
    raised (error "HTTPS Proxy is invalid, 'domains' property could not be resolved!")
gateway_domains preset n (some g) = do
  host ← resolve_host preset n
  returned (resolve_https_proxy_domains host (text "http://" ++ g.name ++ text ":3000"))

unfoldable pub proxy_domains : ConfigPreset → HttpsProxyPreset → Result Text
proxy_domains preset n = elim (truthy n.domains) [
  | some domains ↦ returned domains
  | none ↦ gateway_domains preset n (first_of preset.gateways)
]

abbrev gateway_name : Option GatewayPreset → Option Text
gateway_name none = none
gateway_name (some g) = truthy (some g.name)

abbrev one_dependency : Option Text → Value
one_dependency none = strings_value []
one_dependency (some name) = strings_value (name ∷ [])

abbrev without_prefix : Text → Text
without_prefix t = if starts_with t (text "0x") then drop 2 t else t

-- `toSimpleHex`: without quotes, and without 0x at the beginning.
unfoldable pub to_simple_hex : Text → Text
to_simple_hex t = without_prefix (filter (λ u. not (u == 39)) t)

-- `accounts[0].privateKey`
abbrev first_private_key : List (Option Text) → Result (Option Text)
first_private_key [] = raised type_error
first_private_key (key ∷ keys) = returned key

-- `addresses?.mosaics?.[0]?`
abbrev mosaic_private_key : Option (List (List (Option Text))) → Result (Option Text)
mosaic_private_key none = returned none
mosaic_private_key (some []) = returned none
mosaic_private_key (some (accounts ∷ mosaics)) = first_private_key accounts

-- `getMainAccountPrivateKey`
unfoldable pub main_account_private_key :
    Result (Option (List (List (Option Text)))) → Result (Option Text)
main_account_private_key loaded = do addresses ← loaded; mosaic_private_key addresses

abbrev pub main_mosaic : List Text → Result Text
main_mosaic [] = raised type_error
main_mosaic (name ∷ names) = returned name

module _ {A : Type 0} (service : A → Result Fields) where
  unfoldable pub services_in_turn : List A → Result (List Fields)
  services_in_turn [] = returned []
  services_in_turn (n ∷ ns) = do s ← service n; rest ← services_in_turn ns; returned (s ∷ rest)

module _ (merge : List Fields → Fields) (user : Option Text) (rest : Rest)
    (preset : ConfigPreset) where
  abbrev restart : Value
  restart = str preset.docker_compose_service_restart

  unfoldable pub proxy_entries : HttpsProxyPreset → Text → List (Text × Value)
  proxy_entries n domains =
      (text "container_name", str n.name)
      ∷ (text "image", str preset.https_portal_image)
      ∷ (text "stop_signal", str (text "SIGINT"))
      ∷ (
        text "ports",
        strings_value (
            resolve_ports (
              record { internal_port = 80; open_port = port_flag true }
              ∷ record { internal_port = 443; open_port = n.docker.open_port }
              ∷ [])),
      )
      ∷ (
        text "environment",
        obj (
            fields (
              (text "DOMAINS", str domains)
              ∷ (text "WEBSOCKET", string_or_undefined n.web_socket)
              ∷ (text "STAGE", str n.stage)
              ∷ (
                text "SERVER_NAMES_HASH_BUCKET_SIZE",
                number_or_undefined n.server_names_hash_bucket_size,
              )
              ∷ [])),
      )
      ∷ (text "restart", restart)
      ∷ (text "depends_on", one_dependency (gateway_name (first_of preset.gateways)))
      ∷ []

  abbrev pub proxy_service : HttpsProxyPreset → Text → Fields
  proxy_service n domains = service_of merge user preset n.docker (proxy_entries n domains)

  unfoldable pub https_proxy_service : HttpsProxyPreset → Result Fields
  https_proxy_service n = do domains ← proxy_domains preset n; returned (proxy_service n domains)

  unfoldable pub explorer_entries : ExplorerPreset → List (Text × Value)
  explorer_entries n =
      (text "container_name", str n.name)
      ∷ (text "image", str preset.symbol_explorer_image)
      ∷ (
        text "entrypoint",
        str (text "ash -c \"/bin/ash /symbol-commands/run.sh " ++ n.name ++ text "\""),
      )
      ∷ (text "stop_signal", str (text "SIGINT"))
      ∷ (text "working_dir", str (text "/symbol-workdir"))
      ∷ (text "ports", one_port 4000 n.docker.open_port)
      ∷ (text "restart", restart)
      ∷ (
        text "volumes",
        strings_value (
            vol (text "../explorers/" ++ n.name) (text "/symbol-workdir") true
            ∷ vol (text "./explorer") (text "/symbol-commands") true
            ∷ []),
      )
      ∷ []

  abbrev pub explorer_service : ExplorerPreset → Fields
  explorer_service n = service_of merge user preset n.docker (explorer_entries n)

  unfoldable pub faucet_entries : FaucetPreset → Text → Text → Text → List (Text × Value)
  faucet_entries n full_name default_node private_key =
      (text "container_name", str n.name)
      ∷ (text "image", str preset.symbol_faucet_image)
      ∷ (text "stop_signal", str (text "SIGINT"))
      ∷ (
        text "environment",
        obj (
            fields (
              (text "DEFAULT_NODE", str default_node)
              ∷ (text "DEFAULT_NODE_CLIENT", str default_node)
              ∷ (text "NATIVE_CURRENCY_NAME", str full_name)
              ∷ (text "FAUCET_PRIVATE_KEY", str private_key)
              ∷ (text "NATIVE_CURRENCY_ID", str (to_simple_hex preset.currency_mosaic_id))
              ∷ [])),
      )
      ∷ (text "restart", restart)
      ∷ (text "ports", one_port 4000 n.docker.open_port)
      ∷ (text "depends_on", strings_value (n.gateway ∷ []))
      ∷ []

  abbrev pub faucet_of : FaucetPreset → Text → Text → Text → Fields
  faucet_of n full_name default_node private_key =
      service_of merge user preset n.docker (faucet_entries n full_name default_node private_key)

  unfoldable pub faucet_service : FaucetPreset → Result Fields
  faucet_service n = do
    mosaic_name ← main_mosaic preset.mosaic_names
    default_node ← rest.default_node
    private_key ← main_account_private_key rest.addresses
    returned (
        faucet_of n (preset.base_namespace ++ b'.' ∷ mosaic_name) default_node
          (or_else private_key []))

  -- The services of the docker containers that do not fail.
  unfoldable pub plain_services : List Fields
  plain_services =
      map (λ n. database_service merge user preset n) (included (λ n. n.docker) preset.databases)
      ++ map (λ n. node_service merge user preset n) (included (λ n. n.docker) preset.nodes)
      ++ broker_services merge user preset (included (λ n. n.docker) preset.nodes)
      ++ map (λ n. gateway_service merge user preset n) (included (λ n. n.docker) preset.gateways)

  -- `validServices`
  unfoldable pub compose_services : Result (List Fields)
  compose_services = do
    proxies ← services_in_turn https_proxy_service (included (λ n. n.docker) preset.https_proxies)
    faucets ← services_in_turn faucet_service (included (λ n. n.docker) preset.faucets)
    returned (
        plain_services
        ++ proxies
        ++ map (λ n. explorer_service n) (included (λ n. n.docker) preset.explorers)
        ++ faucets)
