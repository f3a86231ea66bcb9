-- ===== src/Link/Examples.antt =====
-- A node whose account has an expired voting key, a current one and one that is the node's own.
use symbol_bootstrap.Base.{
  String, ℕ, ◌+◌, ◌≤◌, ◌≡◌, refl, Bool, true, false, max, length, none, some, List, [], ◌∷◌, arith,
  leb,
}
use symbol_bootstrap.Base.Text.{text, text_eq, to_upper_case}
use symbol_bootstrap.Voting.File.{VotingKeyAccount}
use symbol_bootstrap.Link.{
  unlink, link, KeyAccount, LinkParams, Answers, confirm_unlink, is_same_key, add_transaction,
  overlaps_voting_accounts,
}
use symbol_bootstrap.Link.Voting.{
  GenericNodeAccount, Transaction, account_key_link, vrf_key_link, voting_key_link, Progress,
  is_same_voting_key, remove_overlapping, unlink_expired, choose, link_step, link_files,
  add_voting_key_link_transactions, unlink_found, add_voting_key_unlink_transactions,
  create_generic_transactions, insert_by_action, sort_by_action, create_transactions,
}
use symbol_bootstrap.Link.Balance.{
  KeyLink, key_link, unlinks, links, count, add_voting_key_link_transactions-balance,
}
use symbol_bootstrap.Link.SingleKey.{apply_keys, apply_keys-add_transaction}
use symbol_bootstrap.Link.Capacity.{add_voting_key_link_transactions-capacity}
use symbol_bootstrap.Link.Overlap.{IsDisjoint, IsSingle}
use symbol_bootstrap.Link.Disjoint.{add_voting_key_link_transactions-IsDisjoint}

abbrev voting_key : String → ℕ → ℕ → VotingKeyAccount
voting_key key first last = record { public_key = text key; start_epoch = first; end_epoch = last }

abbrev expired : VotingKeyAccount
expired = voting_key "0A" 1 9

abbrev current : VotingKeyAccount
current = voting_key "0B" 10 19

abbrev other : VotingKeyAccount
other = voting_key "0C" 20 29

abbrev own : VotingKeyAccount
own = voting_key "0D" 20 25

abbrev later : VotingKeyAccount
later = voting_key "0E" 30 39

abbrev linked : List VotingKeyAccount
linked = expired ∷ current ∷ other ∷ []

abbrev files : List VotingKeyAccount
files = voting_key "0b" 10 19 ∷ own ∷ later ∷ []

-- The user is asked for each key.
abbrev asking : LinkParams
asking = record { unlink_mode = false; ready = false; remove_old_linked = none }

abbrev both_yes : Answers
both_yes = true ∷ true ∷ []

abbrev outcome : Progress KeyLink
outcome = add_voting_key_link_transactions asking key_link linked files 10 both_yes

outcome_transactions :
    outcome.transactions ≡ (expired, unlink) ∷ (other, unlink) ∷ (own, link) ∷ (later, link) ∷ []
unfolding add_voting_key_link_transactions unlink_expired link_files link_step choose
    is_same_voting_key overlaps_voting_accounts remove_overlapping confirm_unlink text_eq
    to_upper_case
outcome_transactions = refl

outcome_remaining : outcome.remaining ≡ current ∷ own ∷ later ∷ []
unfolding add_voting_key_link_transactions unlink_expired link_files link_step choose
    is_same_voting_key overlaps_voting_accounts remove_overlapping confirm_unlink text_eq
    to_upper_case
outcome_remaining = refl

-- The keys that last beyond epoch 25.
abbrev is_late : VotingKeyAccount → Bool
is_late a = leb 26 a.end_epoch

add_voting_key_link_transactions-balance_example :
    count is_late outcome.remaining + count (unlinks is_late) outcome.transactions
    ≡ count is_late linked + count (links is_late) outcome.transactions
add_voting_key_link_transactions-balance_example =
    add_voting_key_link_transactions-balance is_late asking linked files 10 both_yes

add_voting_key_link_transactions-capacity_example : length outcome.remaining ≤ max 3 (length linked)
add_voting_key_link_transactions-capacity_example =
    add_voting_key_link_transactions-capacity asking key_link linked files 10 both_yes

linked-IsDisjoint : IsDisjoint linked
unfolding count overlaps_voting_accounts
linked-IsDisjoint = (refl, (refl, (refl, tt)))

files-IsDisjoint : IsDisjoint files
unfolding count overlaps_voting_accounts
files-IsDisjoint = (refl, (refl, (refl, tt)))

files-IsSingle : IsSingle files linked
unfolding count overlaps_voting_accounts
files-IsSingle = (omega arith, (omega arith, (omega arith, tt)))

add_voting_key_link_transactions-IsDisjoint_example : IsDisjoint outcome.remaining
add_voting_key_link_transactions-IsDisjoint_example =
    add_voting_key_link_transactions-IsDisjoint asking key_link linked files 10 both_yes
      linked-IsDisjoint files-IsDisjoint files-IsSingle

-- A key file that overlaps two linked keys: only the first is unlinked, and the new key is linked
-- although it overlaps the second.
abbrev long : VotingKeyAccount
long = voting_key "0F" 15 25

abbrev removing : LinkParams
removing = record { unlink_mode = false; ready = true; remove_old_linked = none }

abbrev replaced : Progress KeyLink
replaced =
    add_voting_key_link_transactions removing key_link (current ∷ other ∷ []) (long ∷ []) 10 []

two_overlapped : replaced.remaining ≡ other ∷ long ∷ []
unfolding add_voting_key_link_transactions unlink_expired link_files link_step choose
    is_same_voting_key overlaps_voting_accounts remove_overlapping confirm_unlink text_eq
    to_upper_case
two_overlapped = refl

abbrev unlinking : LinkParams
unlinking = record { unlink_mode = true; ready = true; remove_old_linked = none }

abbrev unlinked : Progress KeyLink
unlinked = add_voting_key_unlink_transactions unlinking key_link linked files []

unlinked_transactions : unlinked.transactions ≡ (current, unlink) ∷ []
unfolding add_voting_key_unlink_transactions unlink_found is_same_voting_key
    overlaps_voting_accounts remove_overlapping confirm_unlink text_eq to_upper_case
unlinked_transactions = refl

abbrev old_key : KeyAccount
old_key = record { public_key = text "AA" }

abbrev new_key : KeyAccount
new_key = record { public_key = text "BB" }

apply_keys-add_transaction_example :
    apply_keys
      (some old_key)
      ((add_transaction asking (λ k action. (k, action)) (true ∷ []) (some old_key) new_key).0)
    ≡ some (some new_key)
unfolding is_same_key confirm_unlink text_eq to_upper_case
apply_keys-add_transaction_example =
    apply_keys-add_transaction asking (true ∷ []) (some old_key) new_key

abbrev on_chain : GenericNodeAccount
on_chain = record { remote = some old_key; vrf = none; voting = linked }

abbrev node : GenericNodeAccount
node = record { remote = some new_key; vrf = some old_key; voting = files }

abbrev created : List Transaction
created =
    create_generic_transactions removing account_key_link vrf_key_link voting_key_link on_chain node
      10 []

-- Two key files that overlap each other: the first is unlinked for the second, and the sort puts
-- that before it is linked.
abbrev overlapping_files : GenericNodeAccount
overlapping_files = record { remote = none; vrf = none; voting = own ∷ other ∷ [] }

abbrev nothing_linked : GenericNodeAccount
nothing_linked = record { remote = none; vrf = none; voting = [] }

files_overlap :
    create_transactions removing nothing_linked overlapping_files none 10 []
    ≡ voting_key_link own unlink ∷ voting_key_link own link ∷ voting_key_link other link ∷ []
unfolding create_transactions create_generic_transactions sort_by_action insert_by_action
    add_voting_key_link_transactions unlink_expired link_files link_step choose is_same_voting_key
    overlaps_voting_accounts remove_overlapping confirm_unlink text_eq to_upper_case
files_overlap = refl
