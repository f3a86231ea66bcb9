-- ===== src/Account/Resolver.antt =====
-- The resolvers of src/service/AccountResolver.ts and src/service/BootstrapAccountResolver.ts. The
-- account that `Account.generateNewAccount` makes is an argument, and so are the answers to the
-- prompts, which are used up in order.
use symbol_bootstrap.Base.{
  String, ◌≡◌, refl, Bool, true, false, Option, none, some, List, [], ◌∷◌, ◌++◌, if◌then◌else◌, All,
  Bool-cases, inl, inr, ◌⊎◌,
}
use symbol_bootstrap.Base.Text.{Text, text_eq, to_upper_case, is_empty}
use symbol_bootstrap.Base.Result.{Result, returned, raised, error, known_error, ◌>>=◌}
use symbol_bootstrap.Account.{Keys, Sdk, ConfigAccount, AccountResolver, truthy}

-- `DefaultAccountResolver`. The messages are not empty.
unfoldable pub default_resolver : Sdk → Keys → AccountResolver
default_resolver sdk fresh none key (some message) = raised (error message)
default_resolver sdk fresh none key none = returned fresh
default_resolver sdk fresh (some wanted) key message = elim (truthy wanted.private_key) [
  | some private_key ↦ sdk.create_from_private_key private_key
  | none ↦ raised (error "Private key not provided")
]

-- What a prompt ended with: the account, the private key that was entered, and the answers left.
pub record Entered : Type 0 where
  pub keys : Keys
  pub private_key : Text
  pub answers : List Text

abbrev pub is_wanted : Text → Keys → Bool
is_wanted public_key k = text_eq (to_upper_case k.public_key) (to_upper_case public_key)

-- The loop of `BootstrapAccountResolver.resolveAccount`. `none` is the loop that still waits when
-- the answers are used up.
unfoldable pub ask_private_key : Sdk → Text → List Text → Result (Option Entered)
ask_private_key sdk public_key [] = returned none
ask_private_key sdk public_key (value ∷ values) =
    let again = ask_private_key sdk public_key values in
    let private_key = to_upper_case value in
    if is_empty value then again else do
      k ← sdk.create_from_private_key private_key
      (if is_wanted public_key k
          then returned (some (record { keys = k; private_key = private_key; answers = values }))
          else again)

-- `BootstrapAccountResolver.resolveAccount`; the wanted account is returned as it is afterwards.
unfoldable pub bootstrap_resolver :
    Sdk
    → Keys
    → Option ConfigAccount
    → List Text
    → Option String
    → Result (Option (Keys × Option ConfigAccount × List Text))
bootstrap_resolver sdk fresh none values (some message) = raised (known_error message)
bootstrap_resolver sdk fresh none values none = returned (some (fresh, none, values))
bootstrap_resolver sdk fresh (some wanted) values message = elim (truthy wanted.private_key) [
  | some private_key ↦ do
    k ← sdk.create_from_private_key private_key
    returned (some (k, some wanted, values))
  | none ↦ do
    address ← sdk.create_from_public_key wanted.public_key
    entered ← ask_private_key sdk wanted.public_key values
    (elim entered [
      | none ↦ returned none
      | some e ↦
          returned
            (some (e.keys, some (record wanted { private_key = some e.private_key }), e.answers))
    ])
]

-- An answer that the loop survives: none, or the private key of some account.
abbrev pub IsAnswer : Sdk → Text → Type 0
IsAnswer sdk value =
    (is_empty value ≡ true)
    ⊎ ((k : Keys) × (sdk.create_from_private_key (to_upper_case value) ≡ returned k))

module _ (sdk : Sdk) (public_key : Text) where
  -- The account that the loop ends with.
  abbrev pub HasEntered : List Text → Type 0
  HasEntered values =
      (e : Entered) × (ask_private_key sdk public_key values ≡ returned (some e))
      × (is_wanted public_key e.keys ≡ true)
      × (sdk.create_from_private_key e.private_key ≡ returned e.keys)

  -- The prompt is repeated until the right private key is entered: after any number of answers that
  -- are empty or the private keys of accounts, the private key of the wanted account ends it, and
  -- the account that it ends with is made of the private key that was entered and has the public
  -- key that was asked for.
  pub ask_private_key-ends :
      (wrong later : List Text) (right : Text) (k : Keys)
      → All (IsAnswer sdk) wrong
      → is_empty right ≡ false
      → sdk.create_from_private_key (to_upper_case right) ≡ returned k
      → is_wanted public_key k ≡ true
      → HasEntered (wrong ++ right ∷ later)
  unfolding ask_private_key
  ask_private_key-ends [] later right k _ some_text made wanted = rw some_text (
      rw made (
        rw wanted (
          record { keys = k; private_key = to_upper_case right; answers = later },
          refl,
          wanted,
          made,
        )))
  ask_private_key-ends (value ∷ wrong) later right k (inl e, hs) some_text made wanted =
      rw e (ask_private_key-ends wrong later right k hs some_text made wanted)
  ask_private_key-ends (value ∷ wrong) later right k (inr (l, m), hs) some_text made wanted =
      elim (Bool-cases (is_empty value)) [
        | inl e ↦ rw e (ask_private_key-ends wrong later right k hs some_text made wanted)
        | inr e ↦ rw e (
            rw m (elim (Bool-cases (is_wanted public_key l)) [
              | inl w ↦ rw w (
                record {
                  keys = l;
                  private_key = to_upper_case value;
                  answers = wrong ++ right ∷ later;
                },
                refl,
                w,
                m,
              )
              | inr w ↦ rw w (ask_private_key-ends wrong later right k hs some_text made wanted)
            ]))
      ]
