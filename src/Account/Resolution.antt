-- ===== src/Account/Resolution.antt =====
-- Which account `resolveAccount` decides for.
use symbol_bootstrap.Base.{
  ◌≡◌, refl, Option, none, some, or_first, if◌then◌else◌, Bool-cases, inl, inr,
}
use symbol_bootstrap.Base.Text.{Text, text_eq}
use symbol_bootstrap.Base.Result.{returned}
use symbol_bootstrap.Crypto.{PrivateKeySecurityMode}
use symbol_bootstrap.Account.{
  Sdk, AnyAccount, account, public_account, ConfigAccount, to_config_account, to_account, upper,
  KeyName, AccountResolver, public_key_of, address_of, private_key_of, spread, public_part,
  private_part, resolve_known, resolve_account,
}

-- What is expected of the result: the public key and the address of the account that is chosen, and
-- a private key that is known of that address.
abbrev pub IsResolved : AnyAccount → Option Text → ConfigAccount → Type 0
IsResolved chosen private_key r =
    (r.public_key ≡ public_key_of chosen)
    × (r.address ≡ address_of chosen)
    × (r.private_key ≡ private_key)

-- The private key of the old account serves the new one when their addresses are equal.
abbrev pub known_private_key : AnyAccount → AnyAccount → Option Text
known_private_key old new =
    if text_eq (address_of old) (address_of new)
    then or_first (private_key_of new) (private_key_of old)
    else private_key_of new

to_config-IsResolved : (a : AnyAccount) → IsResolved a (private_key_of a) (to_config_account a)
unfolding to_config_account
to_config-IsResolved (account k) = (refl, refl, refl)
to_config-IsResolved (public_account k) = (refl, refl, refl)

spread-IsResolved :
    (old new : AnyAccount)
    → IsResolved new
        (or_first (private_key_of new) (private_key_of old))
        (spread (to_config_account old) (to_config_account new))
unfolding to_config_account
spread-IsResolved (account k) (account l) = (refl, refl, refl)
spread-IsResolved (account k) (public_account l) = (refl, refl, refl)
spread-IsResolved (public_account k) (account l) = (refl, refl, refl)
spread-IsResolved (public_account k) (public_account l) = (refl, refl, refl)

resolve_known-both :
    (sdk : Sdk) (resolver : AccountResolver) (mode : PrivateKeySecurityMode) (key : KeyName)
    (wanted : Option ConfigAccount) (old new : AnyAccount)
    → (r : ConfigAccount) × (resolve_known sdk resolver mode key wanted (some old) (some new)
        ≡ returned r)
      × IsResolved new (known_private_key old new) r
unfolding resolve_known
resolve_known-both sdk resolver mode key wanted old new =
    elim (Bool-cases (text_eq (address_of old) (address_of new))) [
      | inl e ↦
          rw e (
            spread (to_config_account old) (to_config_account new),
            refl,
            spread-IsResolved old new,
          )
      | inr e ↦ rw e (to_config_account new, refl, to_config-IsResolved new)
    ]

module _ (sdk : Sdk) (resolver : AccountResolver) (mode : PrivateKeySecurityMode) (key : KeyName)
    (stored provided : Option ConfigAccount) where
  -- An account that the presets provide is the one that is resolved, whatever is stored and without
  -- asking the resolver; its private key is the provided one, and if none is provided the stored one
  -- of the same address. This is where the SDK accepts the keys.
  pub resolve_account-provided :
      (old : Option AnyAccount) (new : AnyAccount)
      → to_account sdk (upper (public_part stored)) (upper (private_part stored)) ≡ returned old
      → to_account sdk (upper (public_part provided)) (upper (private_part provided))
        ≡ returned (some new)
      → (r : ConfigAccount) × (resolve_account sdk resolver mode key stored provided ≡ returned r)
        × IsResolved new
            (elim old [ none ↦ private_key_of new | some o ↦ known_private_key o new ])
            r
  unfolding resolve_account resolve_known
  resolve_account-provided none new h k =
      rw h (rw k (to_config_account new, refl, to_config-IsResolved new))
  resolve_account-provided (some old) new h k =
      rw h (rw k (resolve_known-both sdk resolver mode key (or_first provided stored) old new))

  -- An account that is stored stays as it is when none is provided, whatever the security mode is
  -- and without asking the resolver.
  pub resolve_account-stored :
      (old : AnyAccount)
      → to_account sdk (upper (public_part stored)) (upper (private_part stored))
        ≡ returned (some old)
      → to_account sdk (upper (public_part provided)) (upper (private_part provided))
        ≡ returned none
      → resolve_account sdk resolver mode key stored provided ≡ returned (to_config_account old)
  unfolding resolve_account resolve_known
  resolve_account-stored old h k = rw h (rw k refl)
