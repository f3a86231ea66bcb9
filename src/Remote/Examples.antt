-- ===== src/Remote/Examples.antt =====
-- Three gateways, one of which does not answer.
use symbol_bootstrap.Base.{
  ℕ, ◌≤◌, ◌≡◌, refl, Bool, true, false, Option, none, some, List, [], ◌∷◌, if◌then◌else◌,
}
use mathlib.Core.List.{Memᴰ}
use symbol_bootstrap.Base.Strings.{uniq_from}
use symbol_bootstrap.Base.Text.{Text, text, text_eq}
use symbol_bootstrap.Base.Result.{returned, raised, known_error}
use symbol_bootstrap.Action.{done, pure, throw, lift, gets, ◌>>=◌}
use symbol_bootstrap.Remote.{
  ChainInfo, RepositoryInfo, insert_by_height, sort_by_height, answering,
  known_node_repository_infos, best_repository_info,
}
use symbol_bootstrap.Remote.Best.{best_repository_info-highest}
use symbol_bootstrap.Remote.Service.{
  StatisticsNode, RemotePreset, NamedNode, RestService, gateway_urls, get_rest_urls,
  resolve_rest_urls_for_services, get_node_roles, join_with, peer_node, api_node, voting_node,
  RoleType,
}

abbrev at_height : ℕ → ChainInfo
at_height n = record { height = n; finalization_epoch = 7 }

abbrev chain : Text → Option ChainInfo
chain url =
    if text_eq url (text "A")
    then some (at_height 5)
    else if text_eq url (text "B")
    then none
    else some (at_height 9)

abbrev urls : List Text
urls = text "A" ∷ text "B" ∷ text "C" ∷ []

best_of_three :
    best_repository_info chain urls
    ≡ returned (record { rest_gateway_url = text "C"; chain_info = at_height 9 })
unfolding best_repository_info known_node_repository_infos answering sort_by_height insert_by_height
    text_eq
best_of_three = refl

best_of_none : best_repository_info chain [] ≡ raised (known_error "There are not known nodes!")
unfolding best_repository_info known_node_repository_infos
best_of_none = refl

first_answers : chain (text "A") ≡ some (at_height 5)
unfolding text_eq
first_answers = refl

best_repository_info-highest_example :
    (best : RepositoryInfo) × (best_repository_info chain urls ≡ returned best)
    × Memᴰ best.rest_gateway_url urls
    × (chain best.rest_gateway_url ≡ some best.chain_info)
    × 5 ≤ best.chain_info.height
best_repository_info-highest_example =
    best_repository_info-highest chain urls (text "A") (at_height 5) (Memᴰ.head refl) first_answers

abbrev preset : RemotePreset
preset = record {
  known_rest_gateways = text "http://a:3000" ∷ text "http://b:3000" ∷ [];
  known_peers = [];
  last_known_network_epoch = 3;
  statistics_service_url = some (text "S");
  offline = false;
}

abbrev statistics : StatisticsNode
statistics = record {
  api_rest_gateway_url = some (text "http://c:3000");
  is_available = true;
  public_key = none;
  host = none;
  port = 7900;
  friendly_name = none;
  roles = 3;
}

abbrev services : List RestService
services =
    record { rest_host = none; api_node_name = text "n" }
    ∷ record { rest_host = some (text "a"); api_node_name = text "n" }
    ∷ []

abbrev nodes : List NamedNode
nodes = record { name = text "n"; host = some (text "b") } ∷ []

abbrev resolved : List Text
resolved = text "http://b:3000" ∷ text "http://a:3000" ∷ text "http://c:3000" ∷ []

abbrev kept : List Text
kept = text "http://a:3000" ∷ text "http://b:3000" ∷ text "http://c:3000" ∷ []

resolved_once :
    resolve_rest_urls_for_services preset (some (statistics ∷ [])) nodes services none
    ≡ done (resolved, text "http://b:3000") (some kept)
unfolding resolve_rest_urls_for_services get_rest_urls gateway_urls uniq_from text_eq gets pure
    throw lift ◌>>=◌
resolved_once = refl

abbrev has_role : RoleType → ℕ → Bool
has_role peer_node n = true
has_role api_node n = false
has_role voting_node n = true

peer_and_voting : get_node_roles has_role 5 ≡ text "Peer,Voting"
unfolding get_node_roles join_with
peer_and_voting = refl
