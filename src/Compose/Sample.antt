-- ===== src/Compose/Sample.antt =====
-- A preset with a service of each kind but an explorer, and a merge, for the tests.
use symbol_bootstrap.Base.{
  true, false, Option, none, some, or_first, List, [], ◌∷◌, ◌≡◌, refl, ◌∙◌, inl, inr, Bool-cases,
}
use symbol_bootstrap.Base.Text.{Text, text, text_eq}
use symbol_bootstrap.Base.Result.{returned}
use symbol_bootstrap.Value.{Value, str, num, Fields, field, no_fields}
use symbol_bootstrap.Preset.{lookup}
use symbol_bootstrap.Compose.{no_port, port_number, DockerServicePreset}
use symbol_bootstrap.Compose.Presets.{ConfigPreset, Rest}
use symbol_bootstrap.Compose.Containers.{IsTextOrMissing, named, MergesNames}

-- `a ++ b` of the fields of objects.
unfoldable pub append_fields : Fields → Fields → Fields
append_fields no_fields b = b
append_fields (field n v a) b = field n v (append_fields a b)

-- A merge in which the later objects win.
unfoldable pub override : List Fields → Fields
override [] = no_fields
override (o ∷ os) = append_fields (override os) o

lookup-append_fields :
    (name : Text) (a b : Fields)
    → lookup name (append_fields a b) ≡ or_first (lookup name a) (lookup name b)
unfolding lookup append_fields
lookup-append_fields name no_fields b = refl
lookup-append_fields name (field n v a) b = elim (Bool-cases (text_eq n name)) [
  | inl t ↦ rw t refl
  | inr f ↦ rw f (lookup-append_fields name a b)
]

pub override-MergesNames : MergesNames override
unfolding override append_fields
override-MergesNames a none name h given = h
override-MergesNames a (some c) name h given =
    lookup-append_fields (text "container_name") c a
    ∙ given_first (lookup (text "container_name") c) given
  where
    given_first :
        (o : Option Value)
        → IsTextOrMissing o
        → or_first o (lookup (text "container_name") a) ≡ some (str (named o name))
    given_first o (inl e) = rw e h
    given_first o (inr (t, e)) = rw e refl

abbrev pub plain_docker : DockerServicePreset
plain_docker = record {
  ipv4_address = none;
  open_port = no_port;
  host = none;
  exclude_docker_service = false;
  compose = none;
  docker_compose_debug_mode = none;
  stop_grace_period = none;
}

abbrev pub excluded_docker : DockerServicePreset
excluded_docker = record plain_docker { exclude_docker_service = true }

abbrev pub web_docker : DockerServicePreset
web_docker = record plain_docker { open_port = port_number 3000; host = some (text "web") }

abbrev pub example_preset : ConfigPreset
example_preset = record {
  databases =
      record { name = text "db-0"; database_name = none; docker = plain_docker }
      ∷ record { name = text "db-1"; database_name = none; docker = excluded_docker }
      ∷ [];
  nodes =
      record {
        name = text "api-0";
        database_host = some (text "db-0");
        node_stop_grace_period = none;
        docker = plain_docker;
        broker_name = some (text "broker-0");
        broker_stop_grace_period = none;
        broker = excluded_docker;
      }
      ∷ [];
  gateways = record { name = text "rest-0"; database_host = text "db-0"; docker = web_docker } ∷ [];
  https_proxies =
      record {
        name = text "https-0";
        domains = none;
        stage = text "production";
        web_socket = none;
        server_names_hash_bucket_size = none;
        docker = web_docker;
      }
      ∷ [];
  explorers = [];
  faucets = record { name = text "faucet-0"; gateway = text "rest-0"; docker = plain_docker } ∷ [];
  mosaic_names = text "xym" ∷ [];
  database_name = text "catapult";
  mongo_image = text "mongo";
  mongo_compose_run_param = text "--quiet";
  symbol_server_image = text "server";
  symbol_rest_image = text "rest";
  symbol_explorer_image = text "explorer";
  symbol_faucet_image = text "faucet";
  https_portal_image = text "portal";
  catapult_app_folder = text "/usr/catapult";
  data_directory = text "./data";
  base_namespace = text "cat";
  currency_mosaic_id = text "0x12";
  docker_compose_version = num 2;
  docker_compose_service_restart = text "on-failure";
  docker_compose_debug_mode = false;
  node_stop_grace_period = none;
  broker_stop_grace_period = none;
  subnet = none;
  compose = none;
}

abbrev pub example_rest : Rest
example_rest = record {
  default_node = returned (text "http://web:3000");
  addresses = returned none;
}
