-- ===== src/Account/Node.antt =====
-- `resolveNodeAccounts` of src/service/AddressesService.ts, and `resolveRoles` of
-- src/service/ConfigurationUtils.ts. The resolver is an argument.
use symbol_bootstrap.Base.{
  ℕ, ◌≡◌, Bool, true, false, ◌&&◌, ◌||◌, Option, none, some, List, [], ◌∷◌, ◌++◌, take, get_elem?,
  is_some, if◌then◌else◌, suc, arith,
}
use symbol_bootstrap.Base.Text.{Text, text}
use symbol_bootstrap.Base.Decimal.{decimal}
use symbol_bootstrap.Base.Result.{Result, returned, ◌>>=◌, >>=-eq-returned}
use symbol_bootstrap.Crypto.{PrivateKeySecurityMode, get_private_key_security_mode}
use symbol_bootstrap.Account.{
  Sdk, AccountResolver, ConfigAccount, KeyName, main, remote, transport, vrf, truthy,
  to_config_account_from_keys, resolve_account,
}

-- A public and a private key of the preset.
pub record KeyPreset : Type 0 where
  pub public_key : Option Text
  pub private_key : Option Text

-- The fields of a `NodePreset` that are read here.
pub record NodePreset : Type 0 where
  pub name : Option Text
  pub friendly_name : Option Text
  pub roles : Option Text
  pub syncsource : Bool
  pub api : Bool
  pub is_voting : Bool
  pub harvesting : Bool
  pub node_use_remote_account : Bool
  pub main_keys : KeyPreset
  pub transport_keys : KeyPreset
  pub remote_keys : KeyPreset
  pub vrf_keys : KeyPreset

-- `NodeAccount`; the voting keys are added by the voting service.
pub record NodeAccount : Type 0 where
  pub node_name : Text
  pub friendly_name : Text
  pub roles : Text
  pub main_account : ConfigAccount
  pub transport_account : ConfigAccount
  pub remote_account : Option ConfigAccount
  pub vrf_account : Option ConfigAccount

-- `roles.join(',')`
unfoldable pub join : List Text → Text
join [] = []
join (r ∷ []) = r
join (r ∷ s ∷ roles) = r ++ text "," ++ join (s ∷ roles)

abbrev role_if : Bool → Text → List Text
role_if b role = if b then role ∷ [] else []

unfoldable pub resolve_roles : NodePreset → Text
resolve_roles preset = elim (truthy preset.roles) [
  | some roles ↦ roles
  | none ↦ join (
      role_if preset.syncsource (text "Peer")
      ++ role_if preset.api (text "Api")
      ++ role_if preset.is_voting (text "Voting"))
]

abbrev pub or_text : Option Text → Text → Text
or_text o t = elim (truthy o) [ some s ↦ s | none ↦ t ]

-- `oldNodeAccount?.remote`, and so on.
abbrev stored_key {ℓ} : {A : Type ℓ} → Option NodeAccount → (NodeAccount → Option A) → Option A
stored_key none f = none
stored_key (some node) f = f node

abbrev uses_remote : Bool → NodePreset → Bool
uses_remote use_remote preset =
    (preset.node_use_remote_account || use_remote) && (preset.harvesting || preset.is_voting)

module _ (sdk : Sdk) (resolver : AccountResolver) where
  unfoldable pub resolve_key :
      PrivateKeySecurityMode → KeyName → Option ConfigAccount → KeyPreset → Result ConfigAccount
  resolve_key mode key stored preset = do
    provided ← to_config_account_from_keys sdk preset.public_key preset.private_key
    resolve_account sdk resolver mode key stored provided

  -- A key that only some nodes have.
  unfoldable pub resolve_key_if :
      Bool
      → PrivateKeySecurityMode
      → KeyName
      → Option ConfigAccount
      → KeyPreset
      → Result (Option ConfigAccount)
  resolve_key_if false mode key stored preset = returned none
  resolve_key_if true mode key stored preset = do
    resolved ← resolve_key mode key stored preset
    returned (some resolved)

  -- `use_remote` and `security` are of the whole preset.
  unfoldable pub resolve_node_accounts :
      Option NodeAccount → Bool → Option Text → ℕ → NodePreset → Result NodeAccount
  resolve_node_accounts old use_remote security index preset = do
    mode ← get_private_key_security_mode security
    main_account ←
        resolve_key mode main (stored_key old (λ n. some n.main_account)) preset.main_keys
    transport_account ←
        resolve_key mode transport (stored_key old (λ n. some n.transport_account))
          preset.transport_keys
    remote_account ←
        resolve_key_if (uses_remote use_remote preset) mode remote
          (stored_key old (λ n. n.remote_account)) preset.remote_keys
    vrf_account ←
        resolve_key_if preset.harvesting mode vrf (stored_key old (λ n. n.vrf_account))
          preset.vrf_keys
    returned (record {
      node_name = or_text preset.name (text "node-" ++ decimal index);
      friendly_name = or_text preset.friendly_name (take 7 main_account.public_key);
      roles = resolve_roles preset;
      main_account = main_account;
      transport_account = transport_account;
      remote_account = remote_account;
      vrf_account = vrf_account;
    })

  -- The nodes of the preset, each with the stored node at its index.
  unfoldable pub resolve_nodes_accounts :
      List NodeAccount → Bool → Option Text → ℕ → List NodePreset → Result (List NodeAccount)
  resolve_nodes_accounts old use_remote security index [] = returned []
  resolve_nodes_accounts old use_remote security index (preset ∷ presets) = do
    node ← resolve_node_accounts (get_elem? old index) use_remote security index preset
    nodes ← resolve_nodes_accounts old use_remote security (suc index) presets
    returned (node ∷ nodes)

  resolve_key_if-some :
      (b : Bool) (mode : PrivateKeySecurityMode) (key : KeyName) (stored : Option ConfigAccount)
      (preset : KeyPreset) (r : Option ConfigAccount)
      → resolve_key_if b mode key stored preset ≡ returned r
      → is_some r ≡ b
  unfolding resolve_key_if
  resolve_key_if-some false mode key stored preset r h = ground arith
  resolve_key_if-some true mode key stored preset r h =
      let (k, _, e) =
        >>=-eq-returned (resolve_key mode key stored preset) (λ k. returned (some k)) h in
      ground (arith, e)

  -- A node that is resolved has a remote account exactly when remote accounts are used and it
  -- harvests or votes, and a VRF account exactly when it harvests.
  pub resolve_node_accounts-keys :
      (old : Option NodeAccount) (use_remote : Bool) (security : Option Text) (index : ℕ)
      (preset : NodePreset) (node : NodeAccount)
      → resolve_node_accounts old use_remote security index preset ≡ returned node
      → (is_some node.remote_account ≡ (
          (preset.node_use_remote_account || use_remote)
          && (preset.harvesting || preset.is_voting)))
        × (is_some node.vrf_account ≡ preset.harvesting)
  unfolding resolve_node_accounts resolve_key_if
  resolve_node_accounts-keys old use_remote security index preset node h = ground arith
