-- ===== src/Remote/Service.antt =====
-- The gateways and the peers that a service knows, and `resolveRestUrlsForServices`.
use symbol_bootstrap.Base.{
  ℕ, Bool, not, ◌||◌, Option, none, some, List, [], ◌∷◌, ◌++◌, map, find?, or_else, or_first, ◌==◌,
  if◌then◌else◌,
}
use symbol_bootstrap.Base.Text.{Text, text, text_eq}
use symbol_bootstrap.Base.Strings.{uniq_from}
use symbol_bootstrap.Base.Result.{error}
use symbol_bootstrap.Account.{truthy}
use symbol_bootstrap.Action.{Action, done, pure, throw, lift, gets, ◌>>=◌}
use symbol_bootstrap.Remote.{
  ChainInfo, RepositoryInfo, best_repository_info, get_best_finalization_epoch, first_of,
}

-- A node as the statistics service describes it; 0 is a missing port or role.
pub record StatisticsNode : Type 0 where
  pub api_rest_gateway_url : Option Text
  pub is_available : Bool
  pub public_key : Option Text
  pub host : Option Text
  pub port : ℕ
  pub friendly_name : Option Text
  pub roles : ℕ

pub data RoleType : Type 0 where
  peer_node api_node voting_node : RoleType

pub record PeerInfo : Type 0 where
  pub peer_public_key : Text
  pub peer_host : Text
  pub peer_port : ℕ
  pub peer_name : Text
  pub peer_roles : Text

-- What the service reads of the preset. A statistics service that is not to be asked, for there is
-- no url of it or the command is offline, has no answer.
pub record RemotePreset : Type 0 where
  pub known_rest_gateways : List Text
  pub known_peers : List PeerInfo
  pub last_known_network_epoch : ℕ
  pub statistics_service_url : Option Text
  pub offline : Bool

-- `nodes.map((n) => n.apiStatus?.restGatewayUrl).filter((url) => !!url)`
unfoldable pub gateway_urls : List StatisticsNode → List Text
gateway_urls [] = []
gateway_urls (n ∷ nodes) = elim (truthy n.api_rest_gateway_url) [
  | none ↦ gateway_urls nodes
  | some url ↦ url ∷ gateway_urls nodes
]

abbrev nodes_of : Option (List StatisticsNode) → List StatisticsNode
nodes_of none = []
nodes_of (some nodes) = nodes

-- The nodes that the statistics service gives, if it is asked.
abbrev pub statistics_nodes : RemotePreset → Option (List StatisticsNode) → List StatisticsNode
statistics_nodes preset answer = elim (truthy preset.statistics_service_url) [
  | none ↦ []
  | some url ↦ if preset.offline then [] else nodes_of answer
]

-- The member `restUrls`.
abbrev pub RestUrls : Type 0
RestUrls = Option (List Text)

abbrev keep_urls : List Text → Action RestUrls (List Text)
keep_urls urls s = done urls (some urls)

abbrev kept_or : List Text → RestUrls → Action RestUrls (List Text)
kept_or urls none = keep_urls urls
kept_or urls (some kept) = pure kept

-- `getRestUrls`, by what the statistics service answers to this call.
unfoldable pub get_rest_urls :
    RemotePreset → Option (List StatisticsNode) → Action RestUrls (List Text)
get_rest_urls preset answer = do
  kept ← gets (λ s. s)
  kept_or (preset.known_rest_gateways ++ gateway_urls (statistics_nodes preset answer)) kept

-- `getBestRepositoryInfo`, with a url or without one.
unfoldable pub get_best_repository_info :
    RemotePreset
    → Option (List StatisticsNode)
    → (Text → Option ChainInfo)
    → Option Text
    → Action RestUrls RepositoryInfo
get_best_repository_info preset answer chain url = do
  urls ← elim (truthy url) [ some u ↦ pure (u ∷ []) | none ↦ get_rest_urls preset answer ]
  lift (best_repository_info chain urls)

-- `getNodeRoles`; whether a bit of a role is set is a parameter.
abbrev with_role : Bool → Text → List Text → List Text
with_role b name names = if b then name ∷ names else names

unfoldable pub join_with : ℕ → List Text → Text
join_with separator [] = []
join_with separator (t ∷ []) = t
join_with separator (t ∷ u ∷ ts) = t ++ separator ∷ join_with separator (u ∷ ts)

module _ (has_role : RoleType → ℕ → Bool) where
  unfoldable pub get_node_roles : ℕ → Text
  get_node_roles role = join_with b',' (
      with_role (has_role peer_node role) (text "Peer") (
        with_role (has_role api_node role) (text "Api")
          (with_role (has_role voting_node role) (text "Voting") [])))

  abbrev named_peer : StatisticsNode → Option Text → Option Text → Option PeerInfo
  named_peer n none name = none
  named_peer n (some public_key) none = none
  named_peer n (some public_key) (some name) = some (record {
    peer_public_key = public_key;
    peer_host = or_else n.host [];
    peer_port = n.port;
    peer_name = name;
    peer_roles = get_node_roles n.roles;
  })

  -- A node is left out unless it is available and has a key, a port, a name and roles.
  unfoldable pub peer_info : StatisticsNode → Option PeerInfo
  peer_info n =
      if not n.is_available || n.port == 0 || n.roles == 0
      then none
      else named_peer n (truthy n.public_key) (truthy n.friendly_name)

  unfoldable pub peer_infos : List StatisticsNode → List PeerInfo
  peer_infos [] = []
  peer_infos (n ∷ nodes) = elim (peer_info n) [
    | none ↦ peer_infos nodes
    | some peer ↦ peer ∷ peer_infos nodes
  ]

  -- `getPeerInfos`
  unfoldable pub get_peer_infos : RemotePreset → Option (List StatisticsNode) → List PeerInfo
  get_peer_infos preset answer = preset.known_peers ++ peer_infos (statistics_nodes preset answer)

abbrev or_known : ℕ → Option ℕ → ℕ
or_known known none = known
or_known known (some epoch) = if epoch == 0 then known else epoch

-- `resolveCurrentFinalizationEpoch`; `has_voting_node` tells whether a node of the preset votes.
unfoldable pub resolve_current_finalization_epoch :
    RemotePreset
    → Bool
    → Bool
    → Option (List StatisticsNode)
    → (Text → Option ChainInfo)
    → Action RestUrls ℕ
resolve_current_finalization_epoch preset has_voting_node connected answer chain =
    if not has_voting_node || preset.offline || not connected
    then pure preset.last_known_network_epoch
    else do
      urls ← get_rest_urls preset answer
      epoch ← lift (get_best_finalization_epoch chain urls)
      pure (or_known preset.last_known_network_epoch epoch)

-- A gateway of the preset, and the name and the host of a node preset.
pub record RestService : Type 0 where
  pub rest_host : Option Text
  pub api_node_name : Text

pub record NamedNode : Type 0 where
  pub name : Text
  pub host : Option Text

abbrev host_of : Option NamedNode → Option Text
host_of none = none
host_of (some n) = truthy n.host

abbrev pub service_url : List NamedNode → RestService → Text
service_url nodes service =
    text "http://"
    ++ or_else
        (or_first (truthy service.rest_host)
          (host_of (find? (λ n. text_eq n.name service.api_node_name) nodes)))
        (text "localhost")
    ++ text ":3000"

abbrev pub with_default : List Text → Option Text → Action RestUrls (List Text × Text)
with_default rest_nodes none = throw (error "Rest node could not be resolved!")
with_default rest_nodes (some default_node) = pure (uniq_from [] rest_nodes, default_node)

-- `resolveRestUrlsForServices`: the rest nodes, and the default node.
unfoldable pub resolve_rest_urls_for_services :
    RemotePreset
    → Option (List StatisticsNode)
    → List NamedNode
    → List RestService
    → Action RestUrls (List Text × Text)
resolve_rest_urls_for_services preset answer nodes services = do
  urls ← get_rest_urls preset answer
  let rest_nodes = map (service_url nodes) services ++ urls
  with_default rest_nodes (truthy (first_of rest_nodes))
