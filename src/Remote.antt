-- ===== src/Remote.antt =====
-- src/service/RemoteNodeService.ts: the REST gateways and the peers of a running network.
--
-- What a gateway and the statistics service answer are parameters: `none` where the call fails. The
-- gateways that were found are kept: they are the state of the service (Remote/Service).
pub mod Best
pub mod Service
pub mod Services
mod Examples
use symbol_bootstrap.Base.{
  ℕ, Bool, true, false, not, ◌&&◌, Option, none, some, List, [], ◌∷◌, ◌++◌, length, map, filter,
  find?, any, ltb, or_else, ◌==◌, if◌then◌else◌,
}
use symbol_bootstrap.Base.Text.{Text, text, text_eq, is_empty}
use symbol_bootstrap.Base.Result.{Result, returned, raised, error, known_error, guard, ◌>>=◌}

-- `ChainInfo` of symbol-sdk: the height and `latestFinalizedBlock.finalizationEpoch`.
pub record ChainInfo : Type 0 where
  pub height : ℕ
  pub finalization_epoch : ℕ

pub record RepositoryInfo : Type 0 where
  pub rest_gateway_url : Text
  pub chain_info : ChainInfo

-- `b.chainInfo.height.compare(a.chainInfo.height)` orders by falling height, and the sort is stable.
unfoldable pub insert_by_height : RepositoryInfo → List RepositoryInfo → List RepositoryInfo
insert_by_height r [] = r ∷ []
insert_by_height r (s ∷ rs) =
    if ltb r.chain_info.height s.chain_info.height then s ∷ insert_by_height r rs else r ∷ s ∷ rs

-- `sortByHeight`: what answered has a chain info.
unfoldable pub sort_by_height : List RepositoryInfo → List RepositoryInfo
sort_by_height [] = []
sort_by_height (r ∷ rs) = insert_by_height r (sort_by_height rs)

-- The gateways that answer.
unfoldable pub answering : (Text → Option ChainInfo) → List Text → List RepositoryInfo
answering chain [] = []
answering chain (url ∷ urls) = elim (chain url) [
  | none ↦ answering chain urls
  | some info ↦ record { rest_gateway_url = url; chain_info = info } ∷ answering chain urls
]

-- `getKnownNodeRepositoryInfos`
unfoldable pub known_node_repository_infos :
    (Text → Option ChainInfo) → List Text → Result (List RepositoryInfo)
known_node_repository_infos chain [] = raised (known_error "There are not known nodes!")
known_node_repository_infos chain (url ∷ urls) = returned (answering chain (url ∷ urls))

abbrev pub first_of {ℓ} : {A : Type ℓ} → List A → Option A
first_of [] = none
first_of (x ∷ xs) = some x

abbrev required : Option RepositoryInfo → Result RepositoryInfo
required none = raised (error "No up and running node could be found!")
required (some info) = returned info

-- `getBestRepositoryInfo` behind the choice of the urls.
unfoldable pub best_repository_info : (Text → Option ChainInfo) → List Text → Result RepositoryInfo
best_repository_info chain urls = do
  infos ← known_node_repository_infos chain urls
  required (first_of (sort_by_height infos))

abbrev epoch_of : Option RepositoryInfo → Option ℕ
epoch_of none = none
epoch_of (some info) = some info.chain_info.finalization_epoch

unfoldable pub get_best_finalization_epoch :
    (Text → Option ChainInfo) → List Text → Result (Option ℕ)
get_best_finalization_epoch chain [] = returned none
get_best_finalization_epoch chain (url ∷ urls) = do
  infos ← known_node_repository_infos chain (url ∷ urls)
  returned (epoch_of (first_of (sort_by_height infos)))
