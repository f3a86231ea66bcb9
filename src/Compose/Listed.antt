-- ===== src/Compose/Listed.antt =====
-- The services that docker-compose.yml gets: one for every preset that is not excluded, and the brokers.
use symbol_bootstrap.Base.{
  or_else, Option, none, some, List, [], ◌∷◌, ◌++◌, ◌≡◌, refl, ap₂, map, All, ◌∙◌, arith,
  Bool-cases, inl, inr, Option-cases,
}
use mathlib.Core.List.{map-append}
use symbol_bootstrap.Base.Text.{Text}
use symbol_bootstrap.Base.Result.{Result, returned, >>=-eq-returned}
use symbol_bootstrap.Account.{truthy}
use symbol_bootstrap.Value.{Fields}
use symbol_bootstrap.Compose.{DockerServicePreset}
use symbol_bootstrap.Compose.Presets.{
  NodePreset, HttpsProxyPreset, FaucetPreset, ConfigPreset, Rest,
}
use symbol_bootstrap.Compose.Services.{
  included, database_service, node_service, broker_services, gateway_service,
}
use symbol_bootstrap.Compose.Web.{
  services_in_turn, proxy_domains, proxy_service, https_proxy_service, explorer_service, faucet_of,
  faucet_service, main_mosaic, main_account_private_key, plain_services, compose_services,
}
use symbol_bootstrap.Compose.File.{name_of}
use symbol_bootstrap.Compose.Containers.{
  given_name, name_in, IsTextOrMissing, MergesNames, database_service-name, node_service-name,
  broker_service-name, gateway_service-name, proxy_service-name, explorer_service-name,
  faucet_of-name,
}

abbrev IsNamed : DockerServicePreset → Type 0
IsNamed docker = IsTextOrMissing (given_name docker.compose)

module _ {A : Type 0} (docker : A → DockerServicePreset) (name : A → Text) where
  abbrev names : List A → List Text
  names ns = map (λ n. name_in (docker n) (name n)) (included docker ns)

  included-All : (P : A → Type 0) (ns : List A) → All P ns → All P (included docker ns)
  included-All P [] _ = tt
  included-All P (n ∷ ns) (p, h) = elim (Bool-cases (docker n).exclude_docker_service) [
    | inl t ↦ rw t (included-All P ns h)
    | inr f ↦ rw f (p, included-All P ns h)
  ]

  map-name_of :
      (service : A → Fields)
      → ((n : A) → IsNamed (docker n) → name_of (service n) ≡ name_in (docker n) (name n))
      → (ns : List A) → All (λ n. IsNamed (docker n)) ns
      → map name_of (map service ns) ≡ map (λ n. name_in (docker n) (name n)) ns
  map-name_of service e [] _ = refl
  map-name_of service e (n ∷ ns) (p, h) = ap₂ (λ t ts. t ∷ ts) (e n p) (map-name_of service e ns h)

  services-names :
      (service : A → Fields)
      → ((n : A) → IsNamed (docker n) → name_of (service n) ≡ name_in (docker n) (name n))
      → (ns : List A) → All (λ n. IsNamed (docker n)) ns
      → map name_of (map service (included docker ns)) ≡ names ns
  services-names service e ns h = map-name_of service e (included docker ns) (included-All _ ns h)

  services_in_turn-names :
      (service : A → Result Fields)
      → ((n : A) (s : Fields)
          → IsNamed (docker n)
          → service n ≡ returned s
          → name_of s ≡ name_in (docker n) (name n))
      → (ns : List A) (ss : List Fields) → All (λ n. IsNamed (docker n)) ns
      → services_in_turn service ns ≡ returned ss
      → map name_of ss ≡ map (λ n. name_in (docker n) (name n)) ns
  unfolding services_in_turn
  services_in_turn-names service e [] ss _ h =
      let same : [] ≡ ss = ground (arith, h) in rw (← same) refl
  services_in_turn-names service e (n ∷ ns) ss (p, named) h =
      let (s, first, h') = >>=-eq-returned (service n) _ h in
      let (rest, later, h'') = >>=-eq-returned (services_in_turn service ns) _ h' in
      let same : s ∷ rest ≡ ss = ground (arith, h'') in
      rw (← same) (
        ap₂ (λ t ts. t ∷ ts) (e n s p first) (services_in_turn-names service e ns rest named later))

map-appended :
    (xs ys : List Fields) {us vs : List Text}
    → map name_of xs ≡ us
    → map name_of ys ≡ vs
    → map name_of (xs ++ ys) ≡ us ++ vs
map-appended xs ys e f = map-append name_of xs ys ∙ ap₂ (λ a b. a ++ b) e f

-- The names of the brokers of the nodes.
unfoldable pub broker_names : List NodePreset → List Text
broker_names [] = []
broker_names (n ∷ nodes) = elim (truthy n.broker_name) [
  | none ↦ broker_names nodes
  | some name ↦ name_in n.broker name ∷ broker_names nodes
]

-- The names that the containers should have.
abbrev pub expected_names : ConfigPreset → List Text
expected_names preset =
    names (λ n. n.docker) (λ n. n.name) preset.databases
    ++ names (λ n. n.docker) (λ n. n.name) preset.nodes
    ++ broker_names (included (λ n. n.docker) preset.nodes)
    ++ names (λ n. n.docker) (λ n. n.name) preset.gateways
    ++ names (λ n. n.docker) (λ n. n.name) preset.https_proxies
    ++ names (λ n. n.docker) (λ n. n.name) preset.explorers
    ++ names (λ n. n.docker) (λ n. n.name) preset.faucets

-- Where a preset gives a container name in `compose`, it is a string.
abbrev pub AllNamed : ConfigPreset → Type 0
AllNamed preset =
    All (λ n. IsNamed n.docker) preset.databases
    × All (λ n. IsNamed n.docker) preset.nodes
    × All (λ n. IsNamed n.broker) preset.nodes
    × All (λ n. IsNamed n.docker) preset.gateways
    × All (λ n. IsNamed n.docker) preset.https_proxies
    × All (λ n. IsNamed n.docker) preset.explorers
    × All (λ n. IsNamed n.docker) preset.faucets

module _ (merge : List Fields → Fields) (merges : MergesNames merge) (user : Option Text)
    (rest : Rest) (preset : ConfigPreset) where
  broker_services-names :
      (ns : List NodePreset)
      → All (λ n. IsNamed n.broker) ns
      → map name_of (broker_services merge user preset ns) ≡ broker_names ns
  unfolding broker_services broker_names
  broker_services-names [] _ = refl
  broker_services-names (n ∷ ns) (p, h) = elim (Option-cases (truthy n.broker_name)) [
    | inl e ↦ rw (e, map, broker_names) (broker_services-names ns h)
    | inr (name, e) ↦
        rw (e, map, broker_names)
          (ap₂ (λ t ts. t ∷ ts) (broker_service-name merge merges user preset n name p)
            (broker_services-names ns h))
  ]

  https_proxy_service-name :
      (n : HttpsProxyPreset) (s : Fields)
      → IsNamed n.docker
      → https_proxy_service merge user rest preset n ≡ returned s
      → name_of s ≡ name_in n.docker n.name
  unfolding https_proxy_service
  https_proxy_service-name n s named h =
      let (domains, _, h') = >>=-eq-returned (proxy_domains preset n) _ h in
      let same : proxy_service merge user rest preset n domains ≡ s = ground (arith, h') in
      rw (← same) (proxy_service-name merge merges user preset rest n domains named)

  faucet_service-name :
      (n : FaucetPreset) (s : Fields)
      → IsNamed n.docker
      → faucet_service merge user rest preset n ≡ returned s
      → name_of s ≡ name_in n.docker n.name
  unfolding faucet_service
  faucet_service-name n s named h =
      let (mosaic_name, _, h') = >>=-eq-returned (main_mosaic preset.mosaic_names) _ h in
      let (default_node, _, h'') = >>=-eq-returned rest.default_node _ h' in
      let (private_key, _, done) =
        >>=-eq-returned (main_account_private_key rest.addresses) _ h'' in
      let same : faucet_of merge user rest preset n (preset.base_namespace ++ b'.' ∷ mosaic_name)
            default_node (or_else private_key [])
          ≡ s =
        ground (arith, done) in
      rw (← same) (
        faucet_of-name merge merges user preset rest n (preset.base_namespace ++ b'.' ∷ mosaic_name)
          default_node (or_else private_key []) named)

  plain_services-names :
      AllNamed preset
      → map name_of (plain_services merge user rest preset)
        ≡ names (λ n. n.docker) (λ n. n.name) preset.databases
          ++ names (λ n. n.docker) (λ n. n.name) preset.nodes
          ++ broker_names (included (λ n. n.docker) preset.nodes)
          ++ names (λ n. n.docker) (λ n. n.name) preset.gateways
  unfolding plain_services
  plain_services-names (d, n, b, g, _, _, _) =
      map-appended _ _
        (map-appended _ _
          (map-appended _ _
            (services-names (λ n. n.docker) (λ n. n.name) (database_service merge user preset)
              (database_service-name merge merges user preset) preset.databases d)
            (services-names (λ n. n.docker) (λ n. n.name) (node_service merge user preset)
              (node_service-name merge merges user preset) preset.nodes n))
          (broker_services-names (included (λ n. n.docker) preset.nodes)
            (included-All (λ n. n.docker) (λ n. n.name) (λ n. IsNamed n.broker) preset.nodes b)))
        (services-names (λ n. n.docker) (λ n. n.name) (gateway_service merge user preset)
          (gateway_service-name merge merges user preset) preset.gateways g)

  -- When the services can be made, their container names, in order, are those of the databases, the
  -- nodes, their brokers, the gateways, the https proxies, the explorers and the faucets that are not
  -- excluded (a broker goes with its node, whether or not it is excluded itself), each with the name of
  -- its preset unless `compose` of the preset gives another. It is assumed that `_.merge` gives the
  -- container name of the last object that has one, and that these names are strings.
  pub compose_services-names :
      (services : List Fields)
      → AllNamed preset
      → compose_services merge user rest preset ≡ returned services
      → map name_of services ≡ expected_names preset
  unfolding compose_services
  compose_services-names services named h =
      let (d, n, b, g, p, e, f) = named in
      let (proxies, made, h') =
        >>=-eq-returned
          (services_in_turn (https_proxy_service merge user rest preset)
            (included (λ n. n.docker) preset.https_proxies))
          _ h in
      let (faucets, made', h'') =
        >>=-eq-returned
          (services_in_turn (faucet_service merge user rest preset)
            (included (λ n. n.docker) preset.faucets))
          _ h' in
      let explorers =
        map (λ n. explorer_service merge user rest preset n)
          (included (λ n. n.docker) preset.explorers) in
      let same : plain_services merge user rest preset ++ proxies ++ explorers ++ faucets
          ≡ services =
        ground (arith, h'') in
      rw (← same) (
        map-appended _ _
          (map-appended _ _
            (map-appended _ _ (plain_services-names named) (
              services_in_turn-names (λ n. n.docker) (λ n. n.name)
                (https_proxy_service merge user rest preset) https_proxy_service-name
                (included (λ n. n.docker) preset.https_proxies) proxies
                (included-All (λ n. n.docker) (λ n. n.name) _ preset.https_proxies p) made))
            (services-names (λ n. n.docker) (λ n. n.name) (explorer_service merge user rest preset)
              (explorer_service-name merge merges user preset rest) preset.explorers e))
          (services_in_turn-names (λ n. n.docker) (λ n. n.name)
            (faucet_service merge user rest preset) faucet_service-name
            (included (λ n. n.docker) preset.faucets) faucets
            (included-All (λ n. n.docker) (λ n. n.name) _ preset.faucets f) made'))
