-- ===== src/Config.antt =====
-- src/service/ConfigService.ts: what the configuration of a network is made of. Here: the peers of the
-- nodes.
--
-- `_.sampleSize` of lodash is the parameter `sample_size`.
pub mod Genesis
pub mod Cleanup
pub mod Peers
pub mod Seed
pub mod Distinct
mod Examples
use symbol_bootstrap.Base.{
  ℕ, Bool, not, ◌&&◌, Option, List, [], ◌∷◌, ◌++◌, length, filter, any, ltb, or_else, if◌then◌else◌,
}
use symbol_bootstrap.Base.Text.{Text, text, text_eq, contains}
use symbol_bootstrap.Base.Result.{Result, returned, raised, type_error, ◌>>=◌}
use symbol_bootstrap.Account.Node.{NodePreset, NodeAccount, resolve_roles}
use symbol_bootstrap.Remote.Service.{PeerInfo}

-- The peer that a node of the network is: its preset, its host, and its account.
unfoldable pub local_peer : NodePreset → Option Text → NodeAccount → PeerInfo
local_peer preset host node = record {
  peer_public_key = node.main_account.public_key;
  peer_host = or_else host [];
  peer_port = 7900;
  peer_name = or_else preset.friendly_name [];
  peer_roles = resolve_roles preset;
}

-- `localPeers`: the node at an index is looked up in the addresses.
unfoldable pub local_peers :
    List (NodePreset × Option Text) → List NodeAccount → Result (List PeerInfo)
local_peers [] nodes = returned []
local_peers (p ∷ presets) [] = raised type_error
local_peers ((preset, host) ∷ presets) (node ∷ nodes) = do
  peers ← local_peers presets nodes
  returned (local_peer preset host node ∷ peers)

abbrev pub same_key : PeerInfo → PeerInfo → Bool
same_key p q = text_eq p.peer_public_key q.peer_public_key

-- `_.uniqBy(peers, (p) => p.publicKey)`: the first peer with a key stays.
unfoldable pub uniq_by_key : List PeerInfo → List PeerInfo → List PeerInfo
uniq_by_key seen [] = []
uniq_by_key seen (p ∷ peers) =
    let rest = uniq_by_key (p ∷ seen) peers in if any (same_key p) seen then rest else p ∷ rest

-- `allPeers` of `generateNodes`
unfoldable pub all_peers :
    List PeerInfo → List (NodePreset × Option Text) → List NodeAccount → Result (List PeerInfo)
all_peers external presets nodes = do
  peers ← local_peers presets nodes
  returned (uniq_by_key [] (external ++ peers))

-- The known peers with a role, other than the node itself.
abbrev pub is_other_peer : Text → NodeAccount → PeerInfo → Bool
is_other_peer role account p =
    contains p.peer_roles role && not (text_eq p.peer_public_key account.main_account.public_key)

unfoldable pub other_peers : Text → NodeAccount → List PeerInfo → List PeerInfo
other_peers role account known_peers = filter (is_other_peer role account) known_peers

module _ (sample_size : List PeerInfo → ℕ → List PeerInfo) where
  -- `knownPeers` of the file that `generateP2PFile` writes.
  unfoldable pub generate_p2p_file : List PeerInfo → ℕ → List PeerInfo
  generate_p2p_file known_peers list_limit =
      if ltb list_limit (length known_peers)
      then sample_size known_peers list_limit
      else known_peers

  -- The peers of peers-p2p.json and peers-api.json of a node.
  unfoldable pub peer_files : ℕ → ℕ → NodeAccount → List PeerInfo → List PeerInfo × List PeerInfo
  peer_files p2p_limit api_limit account known_peers = (
    generate_p2p_file (other_peers (text "Peer") account known_peers) p2p_limit,
    generate_p2p_file (other_peers (text "Api") account known_peers) api_limit,
  )
