-- ===== src/Announce/Examples.antt =====
-- Two nodes: the main account of the first is multisig, and the second has an account of its own.
use symbol_bootstrap.Base.{
  ℕ, ◌≡◌, ◌≤◌, refl, String, Bool, true, false, Option, none, some, List, [], ◌∷◌, length,
  if◌then◌else◌, arith,
}
use symbol_bootstrap.Base.Int.{pos, ◌+ℤ◌}
use symbol_bootstrap.Base.Counting.{count}
use symbol_bootstrap.Base.Text.{Text, text, text_eq, to_upper_case}
use symbol_bootstrap.Base.Result.{returned}
use symbol_bootstrap.Account.{Keys, Sdk, ConfigAccount, AccountResolver}
use symbol_bootstrap.Action.{end_state, done, pure, throw, wait, lift, gets, ◌>>=◌, case_option}
use symbol_bootstrap.Action.Keeps.{Keeps-lift}
use symbol_bootstrap.Announce.{
  AccountInfo, MultisigAccountInfo, Chain, World, Network, confirm, set_typed, send,
}
use symbol_bootstrap.Announce.Send.{
  should_announce, announce_simple, announce_aggregate_complete, send_bonded,
  announce_aggregate_bonded,
}
use symbol_bootstrap.Announce.Cosigners.{
  remove_address, after_accepted, enter_accounts, prompt_accounts, get_best_cosigner,
  get_multisig_best_cosigner, is_account_empty,
}
use symbol_bootstrap.Announce.Cosigners.Entered.{addresses_of, prompt_accounts-IsExpected}
use symbol_bootstrap.Announce.Cosigners.Enough.{private_keys, prompt_accounts-enough}
use symbol_bootstrap.Announce.Nodes.{
  AnnouncedNode, TransactionFactory, Announcement, Accounts, announce, announce_nodes,
  announce_node, announce_known, announce_transactions, announce_by_main, announce_by_cosigners,
  announce_by_signer, announce_by_provider, resolve_main_account,
}
use symbol_bootstrap.Announce.Locked.{IsLocked, announce-IsLocked}
use symbol_bootstrap.Announce.Consent.{announce-IsDeclined}

-- In this network a key is its own public key and address.
abbrev keys : Text → Keys
keys t = record { private_key = t; public_key = t; address = t }

abbrev sdk : Sdk
sdk = record {
  create_from_private_key = λ t. returned (keys t);
  create_from_public_key = λ t. returned (record { public_key = t; address = t });
}

abbrev own_key : Option ConfigAccount → Text
own_key none = text "none"
own_key (some a) = a.public_key

abbrev resolver : AccountResolver
resolver account key message = returned (keys (own_key account))

abbrev cosigned : MultisigAccountInfo
cosigned = record {
  min_approval = 2;
  min_removal = 1;
  cosignatory_addresses = text "C1" ∷ text "C2" ∷ text "C3" ∷ [];
}

abbrev rich : AccountInfo
rich = record {
  mosaics = record { id = text "XYM"; amount = 7 } ∷ [];
  supplemental_public_keys = record { remote = none; vrf = none; voting = [] };
}

abbrev chain : Chain
chain = record {
  account_info = λ address. some rich;
  multisig_account = λ address. if text_eq address (text "M1") then some cosigned else none;
  generation_hash = text "ab";
  currency_mosaic_id = text "XYM";
  min_fee_multiplier = 10;
  latest_finalized_block_epoch = 3;
}

abbrev accounts : ℕ → Accounts
accounts n = record { account_info = chain.account_info; multisig_account = chain.multisig_account }

-- One transaction, to modify the account.
abbrev factory : TransactionFactory Text
factory = record {
  create_transactions = λ p. lift (returned (text "T" ∷ []));
  modification = λ t. some (1, pos 1);
}

abbrev confirmed : Network Text
confirmed log payload = true

abbrev announcement : Announcement Text
announcement = record {
  params = record { provided_max_fee = 0; ready = false };
  node_presets = 2;
  nemesis_generation_hash_seed = some (text "AB");
  service_provider_public_key = none;
  sdk = sdk;
  resolver = resolver;
  network = confirmed;
  factory = factory;
}

abbrev node : String → AnnouncedNode
node key = record {
  main_account = some (record { private_key = none; public_key = text key; address = text key });
  preset_main_private_key = none;
}

abbrev nodes : List AnnouncedNode
nodes = node "M1" ∷ node "M2" ∷ []

abbrev asked : List Bool → World Text
asked answers = record {
  answers = answers;
  typed = text "C1" ∷ text "C9" ∷ text "C3" ∷ [];
  sent = [];
}

abbrev willing : World Text
willing = asked (true ∷ true ∷ true ∷ true ∷ [])

-- Yes to every question: a complete aggregate for the first node, and a bonded one behind its lock for
-- the second.
announced : length (end_state (announce announcement chain accounts nodes willing)).sent ≡ 3
unfolding announce announce_nodes announce_node announce_known announce_transactions
    announce_by_main announce_by_cosigners announce_by_signer announce_by_provider
    resolve_main_account should_announce announce_simple announce_aggregate_complete send_bonded
    announce_aggregate_bonded remove_address after_accepted enter_accounts prompt_accounts
    get_best_cosigner get_multisig_best_cosigner is_account_empty confirm set_typed send pure throw
    wait lift gets ◌>>=◌ case_option text_eq to_upper_case ◌+ℤ◌
announced = refl

announce-IsLocked_example :
    IsLocked (end_state (announce announcement chain accounts nodes willing))
announce-IsLocked_example =
    announce-IsLocked announcement chain accounts nodes willing (λ p. Keeps-lift _) tt

abbrev declining : World Text
declining = asked (false ∷ false ∷ [])

announce-IsDeclined_example :
    (end_state (announce announcement chain accounts nodes declining)).sent ≡ declining.sent
announce-IsDeclined_example =
    announce-IsDeclined announcement chain accounts nodes declining refl (λ p. Keeps-lift _)
      (refl, (refl, tt))

abbrev two_keys : List Keys
two_keys = keys (text "C1") ∷ keys (text "C3") ∷ []

abbrev left_over : World Text
left_over = record { answers = true ∷ true ∷ true ∷ []; typed = []; sent = [] }

prompted : prompt_accounts sdk 2 cosigned.cosignatory_addresses willing ≡ done two_keys left_over
unfolding remove_address after_accepted enter_accounts prompt_accounts confirm set_typed pure wait
    lift gets ◌>>=◌ case_option text_eq
prompted = refl

abbrev is_third : Text → Bool
is_third address = text_eq address (text "C3")

prompt_accounts-IsExpected_example :
    count is_third (addresses_of two_keys) ≤ count is_third cosigned.cosignatory_addresses
prompt_accounts-IsExpected_example =
    prompt_accounts-IsExpected sdk 2 cosigned.cosignatory_addresses willing left_over two_keys
      prompted is_third

abbrev typed_well : World Text
typed_well = record {
  answers = true ∷ true ∷ [];
  typed = text "C1" ∷ text "C3" ∷ text "C9" ∷ [];
  sent = [];
}

all_two :
    (p : Text → Bool) → count p (addresses_of two_keys) ≤ count p cosigned.cosignatory_addresses
unfolding count addresses_of
all_two p = omega arith

prompt_accounts-enough_example :
    (w : World Text) × (prompt_accounts sdk 2 cosigned.cosignatory_addresses typed_well
      ≡ done two_keys w)
unfolding private_keys
prompt_accounts-enough_example =
    prompt_accounts-enough sdk 2 (keys (text "C1")) (keys (text "C3") ∷ []) (text "C9" ∷ [])
      cosigned.cosignatory_addresses typed_well ((refl, refl), ((refl, refl), tt)) all_two refl
      (refl, (refl, tt)) (omega arith) refl
