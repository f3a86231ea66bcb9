-- ===== src/Run/Health.antt =====
-- `healthCheck`: the services of docker-compose are polled until all are up.
use symbol_bootstrap.Base.{
  ℕ, ◌≡◌, ◌⊎◌, refl, Bool, true, false, not, ◌&&◌, Option, none, some, List, [], ◌∷◌, any, map, All,
  ◌==◌, if◌then◌else◌, arith, Bool-cases, inl, inr,
}
use mathlib.Core.List.{Memᴰ}
use symbol_bootstrap.Base.Text.{Text, text, text_eq, contains}
use symbol_bootstrap.Base.Result.{Result, returned, raised, error}
use symbol_bootstrap.Poll.{Attempt, poll}
use symbol_bootstrap.Poll.Ends.{poll-true}
use symbol_bootstrap.Run.{DockerComposeService, port_of}

-- `getNodeHealth` of a gateway: whether the node and the database are down.
pub record NodeHealth : Type 0 where
  pub api_node_down : Bool
  pub db_down : Bool

-- What one attempt sees: the running containers, whether the port that a text names can be reached,
-- the health of the gateway at such a port, if it answers, and what `poll` sees.
pub record Probe : Type 0 where
  pub running_containers : List Text
  pub is_reachable : Text → Bool
  pub node_health : Text → Option NodeHealth
  pub stopped : Bool
  pub started_at : ℕ
  pub ended_at : ℕ

abbrev is_healthy : Option NodeHealth → Bool
is_healthy none = false
is_healthy (some h) = not h.api_node_down && not h.db_down

module _ (probe : Probe) where
  abbrev pub check_port : DockerComposeService → Text → Bool
  check_port s bind =
      if not (probe.is_reachable (port_of bind))
      then false
      else if contains s.container_name (text "rest-gateway")
      then is_healthy (probe.node_health (port_of bind))
      else true

  unfoldable pub every_port : DockerComposeService → List Text → Bool
  every_port s [] = true
  every_port s (bind ∷ ports) = check_port s bind && every_port s ports

  abbrev pub check_service : DockerComposeService → Bool
  check_service s =
      if not (any (text_eq s.container_name) probe.running_containers)
      then false
      else every_port s s.ports

  -- `runOneCheck`
  unfoldable pub run_one_check : List DockerComposeService → Bool
  run_one_check [] = true
  run_one_check (s ∷ services) = check_service s && run_one_check services

abbrev pub attempt_of : List DockerComposeService → Probe → Attempt
attempt_of services p = record {
  result = run_one_check p services;
  stop_process = p.stopped;
  start_time = p.started_at;
  end_time = p.ended_at;
}

-- A timeout of 0 is none.
abbrev pub timeout_or_default : Option ℕ → ℕ
timeout_or_default none = 60000
timeout_or_default (some t) = if t == 0 then 60000 else t

abbrev ended : Option Bool → Option (Result (Unit {0}))
ended none = none
ended (some true) = some (returned tt)
ended (some false) = some (raised (error "Network did NOT start!!!"))

ended_well : (o : Option Bool) → ended o ≡ some (returned tt) → o ≡ some true
ended_well none h = cc
ended_well (some true) h = refl
ended_well (some false) h = ground arith

-- `checkCertificates`, by which certificates of the nodes will expire.
abbrev pub check_certificates : List Bool → Bool
check_certificates will_expire = not (any (λ b. b) will_expire)

-- The polling; a file that cannot be read or has no services ends it.
abbrev check_loaded :
    ℕ → Option ℕ → Result (List DockerComposeService) → List Probe → Option (Result (Unit {0}))
check_loaded interval timeout (raised e) probes = some (raised e)
check_loaded interval timeout (returned services) probes =
    ended (poll interval (timeout_or_default timeout) (map (attempt_of services) probes))

-- `healthCheck`, by the services of docker-compose.yml, if it exists, and by which certificates will
-- expire: `none` is that it still polls behind all the probes.
unfoldable pub health_check :
    ℕ
    → Option ℕ
    → Option (Result (List DockerComposeService))
    → List Bool
    → List Probe
    → Option (Result (Unit {0}))
health_check interval timeout none will_expire probes = some (returned tt)
health_check interval timeout (some loaded) will_expire probes =
    if not (check_certificates will_expire)
    then some (raised (error "Certificates are about to expire."))
    else check_loaded interval timeout loaded probes

-- A port is up: it can be reached, and behind that of a gateway neither the node nor the database is
-- down.
abbrev pub IsPortUp : Probe → DockerComposeService → Text → Type 0
IsPortUp p s bind =
    (p.is_reachable (port_of bind) ≡ true)
    × ((contains s.container_name (text "rest-gateway") ≡ false)
        ⊎ ((h : NodeHealth) × (p.node_health (port_of bind) ≡ some h)
            × (h.api_node_down ≡ false)
            × (h.db_down ≡ false)))

-- The network of the services is up: their containers run, and their ports are up.
abbrev pub IsUp : List DockerComposeService → Probe → Type 0
IsUp services p =
    All
      (λ s.
        (any (text_eq s.container_name) p.running_containers ≡ true)
        × All (λ bind. IsPortUp p s bind) s.ports)
      services

and_true : (a b : Bool) → (a && b) ≡ true → (a ≡ true) × (b ≡ true)
and_true true b h = (refl, h)
and_true false b h = cc

nor_true : (a b : Bool) → (not a && not b) ≡ true → (a ≡ false) × (b ≡ false)
nor_true true b h = cc
nor_true false true h = cc
nor_true false false h = (refl, refl)

is_healthy-true :
    (o : Option NodeHealth)
    → is_healthy o ≡ true
    → (h : NodeHealth) × (o ≡ some h) × (h.api_node_down ≡ false) × (h.db_down ≡ false)
is_healthy-true none e = cc
is_healthy-true (some h) e =
    let (api, db) = nor_true h.api_node_down h.db_down e in (h, refl, api, db)

check_port-IsPortUp :
    (p : Probe) (s : DockerComposeService) (bind : Text)
    → check_port p s bind ≡ true
    → IsPortUp p s bind
check_port-IsPortUp p s bind e = elim (Bool-cases (p.is_reachable (port_of bind))) [
  | inr f ↦ ground (arith, rw f at e)
  | inl t ↦ (
    t,
    elim (Bool-cases (contains s.container_name (text "rest-gateway"))) [
      | inr other ↦ inl other
      | inl gateway ↦
          inr (is_healthy-true (p.node_health (port_of bind)) (rw gateway at (rw t at e)))
    ],
  )
]

every_port-true :
    (p : Probe) (s : DockerComposeService) (ports : List Text)
    → every_port p s ports ≡ true
    → All (λ bind. IsPortUp p s bind) ports
unfolding every_port
every_port-true p s [] h = tt
every_port-true p s (bind ∷ ports) h =
    let (first, rest) = and_true (check_port p s bind) (every_port p s ports) h in
    (check_port-IsPortUp p s bind first, every_port-true p s ports rest)

run_one_check-IsUp :
    (p : Probe) (services : List DockerComposeService)
    → run_one_check p services ≡ true
    → IsUp services p
unfolding run_one_check
run_one_check-IsUp p [] h = tt
run_one_check-IsUp p (s ∷ services) h =
    let (first, rest) = and_true (check_service p s) (run_one_check p services) h in
    elim (Bool-cases (any (text_eq s.container_name) p.running_containers)) [
      | inl t ↦
          ((t, every_port-true p s s.ports (rw t at first)), run_one_check-IsUp p services rest)
      | inr f ↦ ground (arith, rw f at first)
    ]

-- When `healthCheck` finds docker-compose.yml and returns, no certificate will expire, and at one of
-- the attempts all services were up: their containers ran, their ports could be reached, and the
-- gateways among them and their databases were not down.
pub health_check-IsUp :
    (interval : ℕ) (timeout : Option ℕ) (services : List DockerComposeService)
    (will_expire : List Bool) (probes : List Probe)
    → health_check interval timeout (some (returned services)) will_expire probes
      ≡ some (returned tt)
    → (any (λ b. b) will_expire ≡ false) × ((p : Probe) × Memᴰ p probes × IsUp services p)
unfolding health_check
health_check-IsUp interval timeout services will_expire probes h =
    elim (Bool-cases (any (λ b. b) will_expire)) [
      | inl t ↦ ground (arith, rw t at h)
      | inr f ↦
          let (p, member, ok) =
            poll-true (attempt_of services) interval (timeout_or_default timeout) probes
              (ended_well _ (rw f at h)) in
          (f, (p, member, run_one_check-IsUp p services ok))
    ]
