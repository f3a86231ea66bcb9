-- ===== src/Run/Examples.antt =====
-- A node and a gateway of a network with one volume.
use symbol_bootstrap.Base.{◌≡◌, refl, true, false, Option, none, some, List, [], ◌∷◌, any}
use mathlib.Core.List.{Memᴰ}
use symbol_bootstrap.Base.Text.{Text, text, text_eq, contains, starts_with}
use symbol_bootstrap.Base.Strings.{split, uniq_from, trim_start, trim_end, is_space}
use symbol_bootstrap.Base.Result.{Result, returned, raised, error}
use symbol_bootstrap.Action.{done, thrown, pure, throw, lift, ◌>>=◌}
use symbol_bootstrap.Poll.{poll}
use symbol_bootstrap.Run.{
  Command, make_folder, pull_image, docker_compose, DockerComposeService, RunParams, Machine, issue,
  perform, each, volume_list, images_of, split_args, basic_args, pull_all, prepare_volume,
  before_run, basic_run, run,
}
use symbol_bootstrap.Run.Health.{
  Probe, every_port, run_one_check, health_check, IsUp, health_check-IsUp,
}
use symbol_bootstrap.Run.Volumes.{PreparesOrFails, before_run-IsPrepared}

abbrev node : DockerComposeService
node = record {
  container_name = text "node";
  image = some (text "server");
  volumes = text "../nodes/node:/symbol" ∷ [];
  ports = [];
}

abbrev gateway : DockerComposeService
gateway = record {
  container_name = text "rest-gateway-0";
  image = some (text "rest");
  volumes = [];
  ports = text "3000:3000" ∷ [];
}

abbrev services : List DockerComposeService
services = node ∷ gateway ∷ []

abbrev params : RunParams
params = record {
  target = text "target";
  detached = true;
  build = false;
  pull_images = true;
  reset_data = false;
  health_check = true;
  timeout = none;
  args = text "-a b" ∷ [];
}

abbrev last_of : List Text → Text
last_of [] = []
last_of (t ∷ []) = t
last_of (t ∷ u ∷ ts) = last_of (u ∷ ts)

abbrev machine : Option (Result (List DockerComposeService)) → Machine
machine compose_file = record {
  join = last_of;
  compose_file = compose_file;
  folder_exists = λ path. false;
  is_root = false;
  outcome = λ c. returned tt;
  node_names = [];
  gateway_names = [];
}

started :
    run params (machine (some (returned services))) (returned tt) []
    ≡ done tt (
        docker_compose (
          text "-f"
          ∷ text "docker-compose.yml"
          ∷ text "up"
          ∷ text "--remove-orphans"
          ∷ text "--detach"
          ∷ text "-a"
          ∷ text "b"
          ∷ [])
        ∷ make_folder (text "../nodes/node")
        ∷ pull_image (text "rest")
        ∷ pull_image (text "server")
        ∷ [])
unfolding run basic_run before_run prepare_volume pull_all basic_args split_args images_of
    volume_list each issue perform split uniq_from trim_start trim_end is_space starts_with text_eq
    pure lift ◌>>=◌
started = refl

not_found :
    run params (machine none) (returned tt) [] ≡ thrown (error "Docker compose does not exist.") []
unfolding run before_run pure throw ◌>>=◌
not_found = refl

-- A machine on which no folder can be made.
abbrev refuses : Command → Result (Unit {0})
refuses (make_folder path) = raised (error "EACCES")
refuses c = returned tt

abbrev full_machine : Machine
full_machine = record {
  join = last_of;
  compose_file = some (returned services);
  folder_exists = λ path. false;
  is_root = false;
  outcome = refuses;
  node_names = [];
  gateway_names = [];
}

refused :
    before_run params full_machine true []
    ≡ thrown (error "EACCES") (make_folder (text "../nodes/node") ∷ [])
unfolding before_run prepare_volume perform issue each volume_list split starts_with text_eq pure
    lift ◌>>=◌
refused = refl

unreadable :
    before_run params (machine (some (raised (error "YAML")))) false [] ≡ thrown (error "YAML") []
unfolding before_run lift ◌>>=◌
unreadable = refl

before_run-IsPrepared_example :
    PreparesOrFails
      (machine (some (returned services)))
      params
      services
      (before_run params (machine (some (returned services))) true [])
before_run-IsPrepared_example =
    before_run-IsPrepared (machine (some (returned services))) params true services [] refl

abbrev probe : List Text → Probe
probe running = record {
  running_containers = running;
  is_reachable = λ port. text_eq port (text "3000");
  node_health = λ port. some (record { api_node_down = false; db_down = false });
  stopped = false;
  started_at = 10;
  ended_at = 20;
}

abbrev probes : List Probe
probes = probe (text "node" ∷ []) ∷ probe (text "node" ∷ text "rest-gateway-0" ∷ []) ∷ []

up_at_second :
    health_check 10000 none (some (returned services)) (false ∷ []) probes ≡ some (returned tt)
unfolding health_check poll run_one_check every_port text_eq contains starts_with split
up_at_second = refl

health_check-IsUp_example :
    (any (λ b. b) (false ∷ []) ≡ false) × ((p : Probe) × Memᴰ p probes × IsUp services p)
health_check-IsUp_example = health_check-IsUp 10000 none services (false ∷ []) probes up_at_second
