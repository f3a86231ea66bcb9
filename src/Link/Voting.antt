-- ===== src/Link/Voting.antt =====
-- The voting keys in src/service/LinkService.ts: `addVotingKeyLinkTransactions`,
-- `addVotingKeyUnlinkTransactions`, and the transactions of a node together.
--
-- The linked accounts are distinct objects, so `filter((a) => a != alreadyLinkedAccount)` removes
-- the one that `find` returned, which is the first that overlaps.
use symbol_bootstrap.Base.{
  ℕ, Bool, true, false, not, ◌&&◌, ◌||◌, Option, none, some, List, [], ◌∷◌, ◌++◌, filter, find?,
  length, ltb, leb, ◌==◌, if◌then◌else◌,
}
use symbol_bootstrap.Base.Text.{text_eq, to_upper_case}
use symbol_bootstrap.Voting.File.{VotingKeyAccount}
use symbol_bootstrap.Link.{
  LinkAction, unlink, link, KeyAccount, LinkParams, Answers, confirm_unlink, add_transaction,
  overlaps_voting_accounts,
}

unfoldable pub is_same_voting_key : VotingKeyAccount → VotingKeyAccount → Bool
is_same_voting_key linked account =
    text_eq (to_upper_case linked.public_key) (to_upper_case account.public_key)
    && linked.start_epoch == account.start_epoch
    && linked.end_epoch == account.end_epoch

-- The accounts without the first that overlaps.
unfoldable pub remove_overlapping : VotingKeyAccount → List VotingKeyAccount → List VotingKeyAccount
remove_overlapping account [] = []
remove_overlapping account (a ∷ remaining) =
    if overlaps_voting_accounts account a
    then remaining
    else a ∷ remove_overlapping account remaining

-- The transactions so far, and the variables of the loop.
pub record Progress (T : Type 0) : Type 0 where
  pub transactions : List T
  pub remaining : List VotingKeyAccount
  pub answers : Answers

module _ {T : Type 0} (params : LinkParams) (factory : VotingKeyAccount → LinkAction → T) where
  abbrev add_first : List T → Progress T → Progress T
  add_first ts p = record p { transactions = ts ++ p.transactions }

  abbrev keep_first : VotingKeyAccount → Progress T → Progress T
  keep_first a p = record p { remaining = a ∷ p.remaining }

  abbrev expired_step : VotingKeyAccount → Bool × Answers → (Answers → Progress T) → Progress T
  expired_step a (confirmed, answers) next =
      if confirmed
      then add_first (factory a unlink ∷ []) (next answers)
      else keep_first a (next answers)

  -- The first loop: the linked accounts that have expired.
  unfoldable pub unlink_expired : ℕ → List VotingKeyAccount → Answers → Progress T
  unlink_expired epoch [] answers = record { transactions = []; remaining = []; answers = answers }
  unlink_expired epoch (a ∷ linked) answers =
      if ltb a.end_epoch epoch
      then expired_step a (confirm_unlink params answers) (unlink_expired epoch linked)
      else keep_first a (unlink_expired epoch linked answers)

  -- What the body of the second loop decides before it links.
  pub record Choice : Type 0 where
    pub unlinked : List T
    pub left : List VotingKeyAccount
    pub add : Bool
    pub answers : Answers

  abbrev replace_linked :
      VotingKeyAccount → VotingKeyAccount → List VotingKeyAccount → Bool × Answers → Choice
  replace_linked account linked remaining (confirmed, answers) =
      if confirmed
      then record {
        unlinked = factory linked unlink ∷ [];
        left = remove_overlapping account remaining;
        add = true;
        answers = answers;
      }
      else record { unlinked = []; left = remaining; add = false; answers = answers }

  unfoldable pub choose :
      VotingKeyAccount → Option VotingKeyAccount → List VotingKeyAccount → Answers → Choice
  choose account none remaining answers = record {
    unlinked = [];
    left = remaining;
    add = true;
    answers = answers;
  }
  choose account (some linked) remaining answers =
      if is_same_voting_key linked account
      then record { unlinked = []; left = remaining; add = false; answers = answers }
      else replace_linked account linked remaining (confirm_unlink params answers)

  -- One round of the second loop.
  unfoldable pub link_step : VotingKeyAccount → List VotingKeyAccount → Answers → Progress T
  unfolding choose
  link_step account remaining answers =
      let c =
        choose account (find? (overlaps_voting_accounts account) remaining) remaining answers in
      if ltb (length c.left) 3 && c.add
      then record {
        transactions = c.unlinked ++ factory account link ∷ [];
        remaining = c.left ++ account ∷ [];
        answers = c.answers;
      }
      else record { transactions = c.unlinked; remaining = c.left; answers = c.answers }

  -- The second loop, over the active key files.
  unfoldable pub link_files : List VotingKeyAccount → List VotingKeyAccount → Answers → Progress T
  link_files [] remaining answers = record {
    transactions = [];
    remaining = remaining;
    answers = answers;
  }
  link_files (account ∷ files) remaining answers =
      let p = link_step account remaining answers in
      add_first p.transactions (link_files files p.remaining p.answers)

  unfoldable pub add_voting_key_link_transactions :
      List VotingKeyAccount → List VotingKeyAccount → ℕ → Answers → Progress T
  add_voting_key_link_transactions linked files epoch answers =
      let p = unlink_expired epoch linked answers in
      add_first p.transactions
        (link_files (filter (λ a. leb epoch a.end_epoch) files) p.remaining p.answers)

  abbrev unlink_confirmed :
      VotingKeyAccount → VotingKeyAccount → List VotingKeyAccount → Bool × Answers → Progress T
  unlink_confirmed account linked remaining (confirmed, answers) =
      if confirmed
      then record {
        transactions = factory linked unlink ∷ [];
        remaining = remove_overlapping account remaining;
        answers = answers;
      }
      else record { transactions = []; remaining = remaining; answers = answers }

  unfoldable pub unlink_found :
      VotingKeyAccount → Option VotingKeyAccount → List VotingKeyAccount → Answers → Progress T
  unlink_found account none remaining answers = record {
    transactions = [];
    remaining = remaining;
    answers = answers;
  }
  unlink_found account (some linked) remaining answers =
      if is_same_voting_key linked account
      then unlink_confirmed account linked remaining (confirm_unlink params answers)
      else record { transactions = []; remaining = remaining; answers = answers }

  unfoldable pub add_voting_key_unlink_transactions :
      List VotingKeyAccount → List VotingKeyAccount → Answers → Progress T
  unfolding unlink_found
  add_voting_key_unlink_transactions remaining [] answers = record {
    transactions = [];
    remaining = remaining;
    answers = answers;
  }
  add_voting_key_unlink_transactions remaining (account ∷ files) answers =
      let p =
        unlink_found account (find? (overlaps_voting_accounts account) remaining) remaining
          answers in
      add_first p.transactions (add_voting_key_unlink_transactions p.remaining files p.answers)

-- `GenericNodeAccount`; a missing `voting` is the empty list.
pub record GenericNodeAccount : Type 0 where
  pub remote : Option KeyAccount
  pub vrf : Option KeyAccount
  pub voting : List VotingKeyAccount

module _ {T : Type 0} (params : LinkParams)
    (remote_factory vrf_factory : KeyAccount → LinkAction → T)
    (voting_factory : VotingKeyAccount → LinkAction → T) where
  abbrev add_key :
      (KeyAccount → LinkAction → T)
      → Answers
      → Option KeyAccount
      → Option KeyAccount
      → List T × Answers
  add_key factory answers linked none = ([], answers)
  add_key factory answers linked (some account) =
      add_transaction params factory answers linked account

  unfoldable pub create_generic_transactions :
      GenericNodeAccount → GenericNodeAccount → ℕ → Answers → List T
  create_generic_transactions current node epoch answers =
      let (remotes, answers') = add_key remote_factory answers current.remote node.remote in
      let (vrfs, answers'') = add_key vrf_factory answers' current.vrf node.vrf in
      let votings =
        if params.unlink_mode
        then add_voting_key_unlink_transactions params voting_factory current.voting node.voting
            answers''
        else add_voting_key_link_transactions params voting_factory current.voting node.voting epoch
            answers'' in
      remotes ++ vrfs ++ votings.transactions

-- The transactions of `createTransactions`, without the deadline, the network and the fee that they
-- share.
pub data Transaction : Type 0 where
  account_key_link vrf_key_link : KeyAccount → LinkAction → Transaction
  voting_key_link : VotingKeyAccount → LinkAction → Transaction

abbrev pub link_action : Transaction → LinkAction
link_action (account_key_link k a) = a
link_action (vrf_key_link k a) = a
link_action (voting_key_link k a) = a

abbrev pub is_unlink : Transaction → Bool
is_unlink t = elim (link_action t) [ unlink ↦ true | link ↦ false ]

-- The stable sort by `t1.linkAction - t2.linkAction`: a transaction stands before the first whose
-- action is not less.
unfoldable pub insert_by_action : Transaction → List Transaction → List Transaction
insert_by_action t [] = t ∷ []
insert_by_action t (u ∷ us) =
    if is_unlink t || not (is_unlink u) then t ∷ u ∷ us else u ∷ insert_by_action t us

unfoldable pub sort_by_action : List Transaction → List Transaction
unfolding insert_by_action
sort_by_action [] = []
sort_by_action (t ∷ ts) = insert_by_action t (sort_by_action ts)

-- `latestFinalizedBlockEpoch || presetData.lastKnownNetworkEpoch`
abbrev pub known_epoch : Option ℕ → ℕ → ℕ
known_epoch none last = last
known_epoch (some epoch) last = if epoch == 0 then last else epoch

unfoldable pub create_transactions :
    LinkParams → GenericNodeAccount → GenericNodeAccount → Option ℕ → ℕ → Answers → List Transaction
create_transactions params current node latest last answers = sort_by_action (
    create_generic_transactions params account_key_link vrf_key_link voting_key_link current node
      (known_epoch latest last) answers)
