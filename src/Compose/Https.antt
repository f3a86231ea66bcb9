-- ===== src/Compose/Https.antt =====
-- When the services can be made.
use symbol_bootstrap.Base.{
  Bool, true, false, ◌&&◌, ◌||◌, Option, none, some, List, [], ◌∷◌, ◌≡◌, refl, ap₂, ◌∙◌, all,
  is_some, Option-cases, inl, inr,
}
use symbol_bootstrap.Base.Text.{Text}
use symbol_bootstrap.Base.Result.{Result, returned, raised, ◌>>=◌}
use symbol_bootstrap.Account.{truthy}
use symbol_bootstrap.Value.{Fields}
use symbol_bootstrap.Remote.{first_of}
use symbol_bootstrap.Compose.Presets.{
  GatewayPreset, HttpsProxyPreset, FaucetPreset, ConfigPreset, Rest,
}
use symbol_bootstrap.Compose.Services.{included}
use symbol_bootstrap.Compose.Web.{
  services_in_turn, proxy_host, resolve_host, gateway_domains, proxy_domains, https_proxy_service,
  faucet_service, main_mosaic, main_account_private_key, compose_services,
}

abbrev pub is_returned : {A : Type 0} → Result A → Bool
is_returned (raised e) = false
is_returned (returned a) = true

is_returned->>= :
    {A B : Type 0} (m : Result A) (f : A → Result B) (b : Bool)
    → ((a : A) → is_returned (f a) ≡ b)
    → is_returned (m >>= f) ≡ (is_returned m && b)
is_returned->>= (raised e) f b h = refl
is_returned->>= (returned a) f b h = h a

is_returned-map :
    {A B : Type 0} (m : Result A) (g : A → B)
    → is_returned (m >>= λ a. returned (g a)) ≡ is_returned m
is_returned-map (raised e) g = refl
is_returned-map (returned a) g = refl

module _ {A : Type 0} (service : A → Result Fields) (works : A → Bool)
    (e : (n : A) → is_returned (service n) ≡ works n) where
  is_returned-services_in_turn :
      (ns : List A) → is_returned (services_in_turn service ns) ≡ all works ns
  unfolding services_in_turn
  is_returned-services_in_turn [] = refl
  is_returned-services_in_turn (n ∷ ns) =
      is_returned->>= (service n) _ (all works ns) (λ s.
        is_returned-map (services_in_turn service ns) (λ rest. s ∷ rest)
        ∙ is_returned-services_in_turn ns)
      ∙ ap₂ ◌&&◌ (e n) refl

-- The domains of a proxy are given, or there are a gateway and a host.
abbrev pub has_domains : ConfigPreset → HttpsProxyPreset → Bool
has_domains preset n =
    is_some (truthy n.domains)
    || is_some (first_of preset.gateways) && is_some (proxy_host preset n)

-- The addresses can be read, and if they have a mosaic, the first one has an account.
abbrev pub has_main_account : Result (Option (List (List (Option Text)))) → Bool
has_main_account (raised e) = false
has_main_account (returned none) = true
has_main_account (returned (some [])) = true
has_main_account (returned (some ([] ∷ mosaics))) = false
has_main_account (returned (some ((key ∷ keys) ∷ mosaics))) = true

-- There are a mosaic, a node and an account for the faucets.
abbrev pub serves_faucets : ConfigPreset → Rest → Bool
serves_faucets preset rest =
    is_some (first_of preset.mosaic_names)
    && (is_returned rest.default_node && has_main_account rest.addresses)

is_returned-main_account_private_key :
    (loaded : Result (Option (List (List (Option Text)))))
    → is_returned (main_account_private_key loaded) ≡ has_main_account loaded
unfolding main_account_private_key
is_returned-main_account_private_key (raised e) = refl
is_returned-main_account_private_key (returned none) = refl
is_returned-main_account_private_key (returned (some [])) = refl
is_returned-main_account_private_key (returned (some ([] ∷ mosaics))) = refl
is_returned-main_account_private_key (returned (some ((key ∷ keys) ∷ mosaics))) = refl

is_returned-main_mosaic :
    (names : List Text) → is_returned (main_mosaic names) ≡ is_some (first_of names)
is_returned-main_mosaic [] = refl
is_returned-main_mosaic (name ∷ names) = refl

module _ (preset : ConfigPreset) where
  is_returned-resolve_host :
      (n : HttpsProxyPreset) → is_returned (resolve_host preset n) ≡ is_some (proxy_host preset n)
  unfolding resolve_host
  is_returned-resolve_host n = elim (Option-cases (proxy_host preset n)) [
    | inl e ↦ rw (e, resolve_host) refl
    | inr (h, e) ↦ rw (e, resolve_host) refl
  ]

  is_returned-gateway_domains :
      (n : HttpsProxyPreset) (g : Option GatewayPreset)
      → is_returned (gateway_domains preset n g) ≡ (is_some g && is_some (proxy_host preset n))
  is_returned-gateway_domains n none = refl
  is_returned-gateway_domains n (some g) =
      is_returned-map (resolve_host preset n) _ ∙ is_returned-resolve_host n

  is_returned-proxy_domains :
      (n : HttpsProxyPreset) → is_returned (proxy_domains preset n) ≡ has_domains preset n
  unfolding proxy_domains
  is_returned-proxy_domains n = elim (Option-cases (truthy n.domains)) [
    | inl e ↦ rw (e, proxy_domains) (is_returned-gateway_domains n (first_of preset.gateways))
    | inr (h, e) ↦ rw (e, proxy_domains) refl
  ]

module _ (merge : List Fields → Fields) (user : Option Text) (rest : Rest)
    (preset : ConfigPreset) where
  is_returned-https_proxy_service :
      (n : HttpsProxyPreset)
      → is_returned (https_proxy_service merge user rest preset n) ≡ has_domains preset n
  unfolding https_proxy_service
  is_returned-https_proxy_service n =
      is_returned-map (proxy_domains preset n) _ ∙ is_returned-proxy_domains preset n

  is_returned-faucet_service :
      (n : FaucetPreset)
      → is_returned (faucet_service merge user rest preset n) ≡ serves_faucets preset rest
  unfolding faucet_service
  is_returned-faucet_service n =
      is_returned->>= (main_mosaic preset.mosaic_names) _
        (is_returned rest.default_node && has_main_account rest.addresses)
        (λ name. is_returned->>= rest.default_node _ (has_main_account rest.addresses) (λ node.
          is_returned-map (main_account_private_key rest.addresses) _
          ∙ is_returned-main_account_private_key rest.addresses))
      ∙ ap₂ ◌&&◌ (is_returned-main_mosaic preset.mosaic_names) refl

  -- The services of docker-compose.yml can be made if and only if every https proxy that is not
  -- excluded has its domains, or there are a gateway and a host for it, and, where a faucet is not
  -- excluded, the network has a mosaic, the default node was resolved, and the addresses, passed or
  -- loaded, were read and, if they have a mosaic, there is an account of the first one.
  pub is_returned-compose_services : is_returned (compose_services merge user rest preset) ≡ (
      all (has_domains preset) (included (λ n. n.docker) preset.https_proxies)
      && all (λ n. serves_faucets preset rest) (included (λ n. n.docker) preset.faucets))
  unfolding compose_services
  is_returned-compose_services =
      is_returned->>=
        (services_in_turn (https_proxy_service merge user rest preset)
          (included (λ n. n.docker) preset.https_proxies))
        _ (all (λ n. serves_faucets preset rest) (included (λ n. n.docker) preset.faucets))
        (λ proxies.
          is_returned-map _ _
          ∙ is_returned-services_in_turn (faucet_service merge user rest preset)
              (λ n. serves_faucets preset rest) is_returned-faucet_service
              (included (λ n. n.docker) preset.faucets))
      ∙ ap₂ ◌&&◌
          (is_returned-services_in_turn (https_proxy_service merge user rest preset)
            (has_domains preset) is_returned-https_proxy_service
            (included (λ n. n.docker) preset.https_proxies))
          refl
