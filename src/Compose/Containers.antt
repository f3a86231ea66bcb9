-- ===== src/Compose/Containers.antt =====
-- The container names of the services.
use symbol_bootstrap.Base.{Option, none, some, List, ◌∷◌, ◌≡◌, refl, ap, ◌∙◌, ◌⊎◌}
use symbol_bootstrap.Base.Text.{Text, text, text_eq}
use symbol_bootstrap.Value.{Value, str, Fields}
use symbol_bootstrap.Preset.{lookup, spread_fields}
use symbol_bootstrap.Preset.Create.{optional}
use symbol_bootstrap.Compose.{
  DockerServicePreset, fields, resolve_debug_options, resolved_raw, resolve_service,
}
use symbol_bootstrap.Compose.Presets.{
  DatabasePreset, NodePreset, GatewayPreset, HttpsProxyPreset, ExplorerPreset, FaucetPreset,
  ConfigPreset, Rest,
}
use symbol_bootstrap.Compose.Services.{
  service_of, database_entries, database_service, node_entries, node_service, broker_entries,
  broker_service, gateway_entries, gateway_service,
}
use symbol_bootstrap.Compose.Web.{
  proxy_entries, proxy_service, explorer_entries, explorer_service, faucet_entries, faucet_of,
}
use symbol_bootstrap.Compose.Untouched.{
  IsUntouched, resolved_raw-untouched, debug_options-untouched,
}
use symbol_bootstrap.Compose.File.{key_text, name_of}

abbrev container_name : Text
container_name = text "container_name"

-- The container name that the field `compose` of a preset gives.
abbrev pub given_name : Option Fields → Option Value
given_name none = none
given_name (some c) = lookup container_name c

-- The name of a container: the one that `compose` gives, or the name of the preset.
abbrev pub named : Option Value → Text → Text
named (some (str t)) name = t
named _ name = name

abbrev pub name_in : DockerServicePreset → Text → Text
name_in docker name = named (given_name docker.compose) name

-- A container name in `compose` is a string.
abbrev pub IsTextOrMissing : Option Value → Type 0
IsTextOrMissing o = (o ≡ none) ⊎ ((t : Text) × (o ≡ some (str t)))

-- `_.merge` gives the container name of the last object that has one, which is a string.
abbrev pub MergesNames : (List Fields → Fields) → Type 0
MergesNames merge =
    (a : Fields) (c : Option Fields) (name : Text)
    → lookup container_name a ≡ some (str name)
    → IsTextOrMissing (given_name c)
    → lookup container_name (merge (a ∷ optional c)) ≡ some (str (named (given_name c) name))

container_name-IsUntouched : IsUntouched container_name
unfolding text_eq
container_name-IsUntouched = (refl, (refl, (refl, (refl, (refl, (refl, tt))))))

module _ (merge : List Fields → Fields) (merges : MergesNames merge) (user : Option Text)
    (preset : ConfigPreset) where
  -- A service whose entries have a name has the name of its container.
  service_of-name :
      (docker : DockerServicePreset) (entries : List (Text × Value)) (name : Text)
      → IsTextOrMissing (given_name docker.compose)
      → lookup container_name (fields entries) ≡ some (str name)
      → name_of (service_of merge user preset docker entries) ≡ name_in docker name
  unfolding resolve_service
  service_of-name docker entries name given h =
      let own =
        spread_fields (fields entries) (
          resolve_debug_options preset.docker_compose_debug_mode
            docker.docker_compose_debug_mode) in
      ap key_text (
        merges (resolved_raw docker own) docker.compose name
          (resolved_raw-untouched container_name docker own container_name-IsUntouched
            ∙ debug_options-untouched container_name (fields entries)
                preset.docker_compose_debug_mode docker.docker_compose_debug_mode
                container_name-IsUntouched
            ∙ h)
          given)

  pub database_service-name :
      (n : DatabasePreset)
      → IsTextOrMissing (given_name n.docker.compose)
      → name_of (database_service merge user preset n) ≡ name_in n.docker n.name
  unfolding database_entries fields lookup text_eq
  database_service-name n given =
      service_of-name n.docker (database_entries merge user preset n) n.name given refl

  pub node_service-name :
      (n : NodePreset)
      → IsTextOrMissing (given_name n.docker.compose)
      → name_of (node_service merge user preset n) ≡ name_in n.docker n.name
  unfolding node_entries fields lookup text_eq
  node_service-name n given = service_of-name _ (node_entries merge user preset n) n.name given refl

  pub broker_service-name :
      (n : NodePreset) (name : Text)
      → IsTextOrMissing (given_name n.broker.compose)
      → name_of (broker_service merge user preset n name) ≡ name_in n.broker name
  unfolding broker_entries fields lookup text_eq
  broker_service-name n name given =
      service_of-name _ (broker_entries merge user preset n name) name given refl

  pub gateway_service-name :
      (n : GatewayPreset)
      → IsTextOrMissing (given_name n.docker.compose)
      → name_of (gateway_service merge user preset n) ≡ name_in n.docker n.name
  unfolding gateway_entries fields lookup text_eq
  gateway_service-name n given =
      service_of-name _ (gateway_entries merge user preset n) n.name given refl

  pub proxy_service-name :
      (rest : Rest) (n : HttpsProxyPreset) (domains : Text)
      → IsTextOrMissing (given_name n.docker.compose)
      → name_of (proxy_service merge user rest preset n domains) ≡ name_in n.docker n.name
  unfolding proxy_entries fields lookup text_eq
  proxy_service-name rest n domains given =
      service_of-name _ (proxy_entries merge user rest preset n domains) n.name given refl

  pub explorer_service-name :
      (rest : Rest) (n : ExplorerPreset)
      → IsTextOrMissing (given_name n.docker.compose)
      → name_of (explorer_service merge user rest preset n) ≡ name_in n.docker n.name
  unfolding explorer_entries fields lookup text_eq
  explorer_service-name rest n given =
      service_of-name _ (explorer_entries merge user rest preset n) n.name given refl

  pub faucet_of-name :
      (rest : Rest) (n : FaucetPreset) (full_name default_node private_key : Text)
      → IsTextOrMissing (given_name n.docker.compose)
      → name_of (faucet_of merge user rest preset n full_name default_node private_key)
        ≡ name_in n.docker n.name
  unfolding faucet_entries fields lookup text_eq
  faucet_of-name rest n full_name default_node private_key given =
      service_of-name _ (faucet_entries merge user rest preset n full_name default_node private_key)
        n.name given refl
