-- ===== src/Link/Balance.antt =====
-- The transactions account for the voting keys: what is linked afterwards is what was linked, less
-- what is unlinked and with what is linked.
use symbol_bootstrap.Base.{
  ℕ, ◌+◌, ◌≡◌, refl, Bool, false, ◌&&◌, some, List, [], ◌∷◌, ◌++◌, find?, filter, leb, length, ltb,
  arith, Bool-cases, Option-cases, inl, inr,
}
unfoldable pub use symbol_bootstrap.Base.Counting.{count}
pub use symbol_bootstrap.Base.Counting.{one, count-append, count-snoc}
use symbol_bootstrap.Voting.File.{VotingKeyAccount}
use symbol_bootstrap.Link.{
  LinkAction, unlink, link, LinkParams, Answers, confirm_unlink, overlaps_voting_accounts,
}
use symbol_bootstrap.Link.Voting.{
  remove_overlapping, is_same_voting_key, unlink_expired, choose, link_step, link_files,
  add_voting_key_link_transactions, unlink_found, add_voting_key_unlink_transactions,
}

-- A transaction of a voting key.
abbrev pub KeyLink : Type 0
KeyLink = VotingKeyAccount × LinkAction

abbrev pub key_link : VotingKeyAccount → LinkAction → KeyLink
key_link a action = (a, action)

abbrev pub unlinks : (VotingKeyAccount → Bool) → KeyLink → Bool
unlinks p (a, unlink) = p a
unlinks p (a, link) = false

abbrev pub links : (VotingKeyAccount → Bool) → KeyLink → Bool
links p (a, unlink) = false
links p (a, link) = p a

-- `find` gives an account that overlaps, and `filter` takes exactly that one away.
pub count-remove_overlapping :
    (p : VotingKeyAccount → Bool) (account : VotingKeyAccount) (xs : List VotingKeyAccount)
    (l : VotingKeyAccount)
    → find? (overlaps_voting_accounts account) xs ≡ some l
    → count p (remove_overlapping account xs) + one (p l) ≡ count p xs
unfolding count remove_overlapping
count-remove_overlapping p account [] l h = cc
count-remove_overlapping p account (x ∷ xs) l h =
    elim (Bool-cases (overlaps_voting_accounts account x)) [
      | inl e ↦ let same : x ≡ l = ground (arith, rw e at h) in rw e (rw same (omega arith))
      | inr e ↦ rw e (omega (arith, count-remove_overlapping p account xs l (rw e at h)))
    ]

module _ (p : VotingKeyAccount → Bool) (params : LinkParams) where
  -- What a loop keeps: `before` is the accounts that it started from.
  abbrev IsBalanced : List VotingKeyAccount → List VotingKeyAccount → List KeyLink → Type 0
  IsBalanced before after ts =
      count p after + count (unlinks p) ts ≡ count p before + count (links p) ts

  unlink_expired-IsBalanced :
      (epoch : ℕ) (linked : List VotingKeyAccount) (answers : Answers)
      → let o = unlink_expired params key_link epoch linked answers in
        IsBalanced linked o.remaining o.transactions
  unfolding unlink_expired count
  unlink_expired-IsBalanced epoch [] answers = refl
  unlink_expired-IsBalanced epoch (a ∷ linked) answers = elim (Bool-cases (ltb a.end_epoch epoch)) [
    | inl e ↦ rw e (elim (Bool-cases ((confirm_unlink params answers).0)) [
      | inl c ↦ rw c (
          omega (arith, unlink_expired-IsBalanced epoch linked ((confirm_unlink params answers).1)))
      | inr c ↦ rw c (
          omega (arith, unlink_expired-IsBalanced epoch linked ((confirm_unlink params answers).1)))
    ])
    | inr e ↦ rw e (omega (arith, unlink_expired-IsBalanced epoch linked answers))
  ]

  choose-IsBalanced :
      (account : VotingKeyAccount) (remaining : List VotingKeyAccount) (answers : Answers)
      → let c =
          choose params key_link account
            (find? (overlaps_voting_accounts account) remaining)
            remaining
            answers in
        (count p c.left + count (unlinks p) c.unlinked ≡ count p remaining)
        × (count (links p) c.unlinked ≡ 0)
  unfolding choose count
  choose-IsBalanced account remaining answers =
      elim (Option-cases (find? (overlaps_voting_accounts account) remaining)) [
        | inl e ↦ rw e (omega arith, refl)
        | inr (l, e) ↦ rw e (elim (Bool-cases (is_same_voting_key l account)) [
          | inl s ↦ rw s (omega arith, refl)
          | inr s ↦ rw s (elim (Bool-cases ((confirm_unlink params answers).0)) [
            | inl c ↦ rw c (omega (arith, count-remove_overlapping p account remaining l e), refl)
            | inr c ↦ rw c (omega arith, refl)
          ])
        ])
      ]

  link_step-IsBalanced :
      (account : VotingKeyAccount) (remaining : List VotingKeyAccount) (answers : Answers)
      → let o = link_step params key_link account remaining answers in
        IsBalanced remaining o.remaining o.transactions
  unfolding link_step count
  link_step-IsBalanced account remaining answers =
      let c =
        choose params key_link account (find? (overlaps_voting_accounts account) remaining)
          remaining answers in
      let (kept, none_linked) = choose-IsBalanced account remaining answers in
      elim (Bool-cases (ltb (length c.left) 3 && c.add)) [
        | inl e ↦ rw e (
            omega (
              arith,
              kept,
              none_linked,
              count-snoc p c.left account,
              count-snoc (unlinks p) c.unlinked (account, link),
              count-snoc (links p) c.unlinked (account, link),
            ))
        | inr e ↦ rw e (omega (arith, kept, none_linked))
      ]

  -- Two stages one after the other.
  IsBalanced-trans :
      (first second third : List VotingKeyAccount) (ts us : List KeyLink)
      → IsBalanced first second ts
      → IsBalanced second third us
      → IsBalanced first third (ts ++ us)
  IsBalanced-trans first second third ts us h k =
      omega (arith, h, k, count-append (unlinks p) ts us, count-append (links p) ts us)

  link_files-IsBalanced :
      (files remaining : List VotingKeyAccount) (answers : Answers)
      → let o = link_files params key_link files remaining answers in
        IsBalanced remaining o.remaining o.transactions
  unfolding link_files count
  link_files-IsBalanced [] remaining answers = refl
  link_files-IsBalanced (account ∷ files) remaining answers =
      let o = link_step params key_link account remaining answers in
      let next = link_files params key_link files o.remaining o.answers in
      IsBalanced-trans remaining o.remaining next.remaining o.transactions next.transactions
        (link_step-IsBalanced account remaining answers)
        (link_files-IsBalanced files o.remaining o.answers)

  -- Linking keeps the account's books: for every predicate on voting keys, the keys that the
  -- factory takes as linked at the end and those that it unlinks are together as many as the keys
  -- that were linked and those that it links.
  pub add_voting_key_link_transactions-balance :
      (linked files : List VotingKeyAccount) (epoch : ℕ) (answers : Answers)
      → let o = add_voting_key_link_transactions params key_link linked files epoch answers in
        count p o.remaining + count (unlinks p) o.transactions
        ≡ count p linked + count (links p) o.transactions
  unfolding add_voting_key_link_transactions
  add_voting_key_link_transactions-balance linked files epoch answers =
      let o = unlink_expired params key_link epoch linked answers in
      let active = filter (λ a. leb epoch a.end_epoch) files in
      let next = link_files params key_link active o.remaining o.answers in
      IsBalanced-trans linked o.remaining next.remaining o.transactions next.transactions
        (unlink_expired-IsBalanced epoch linked answers)
        (link_files-IsBalanced active o.remaining o.answers)

  unlink_found-IsBalanced :
      (account : VotingKeyAccount) (remaining : List VotingKeyAccount) (answers : Answers)
      → let o =
          unlink_found params key_link account
            (find? (overlaps_voting_accounts account) remaining)
            remaining
            answers in
        IsBalanced remaining o.remaining o.transactions × (count (links p) o.transactions ≡ 0)
  unfolding unlink_found count
  unlink_found-IsBalanced account remaining answers =
      elim (Option-cases (find? (overlaps_voting_accounts account) remaining)) [
        | inl e ↦ rw e (refl, refl)
        | inr (l, e) ↦ rw e (elim (Bool-cases (is_same_voting_key l account)) [
          | inl s ↦ rw s (elim (Bool-cases ((confirm_unlink params answers).0)) [
            | inl c ↦ rw c (omega (arith, count-remove_overlapping p account remaining l e), refl)
            | inr c ↦ rw c (refl, refl)
          ])
          | inr s ↦ rw s (refl, refl)
        ])
      ]

  -- Unlinking links nothing, and the keys that stay and those that it unlinks are the keys that
  -- were linked, each counted once, for every predicate on voting keys.
  pub add_voting_key_unlink_transactions-balance :
      (remaining files : List VotingKeyAccount) (answers : Answers)
      → let o = add_voting_key_unlink_transactions params key_link remaining files answers in
        (count p o.remaining + count (unlinks p) o.transactions ≡ count p remaining)
        × (count (links p) o.transactions ≡ 0)
  unfolding add_voting_key_unlink_transactions count
  add_voting_key_unlink_transactions-balance remaining [] answers = (omega arith, refl)
  add_voting_key_unlink_transactions-balance remaining (account ∷ files) answers =
      let o =
        unlink_found params key_link account (find? (overlaps_voting_accounts account) remaining)
          remaining answers in
      let next = add_voting_key_unlink_transactions params key_link o.remaining files o.answers in
      let (kept, none_linked) = unlink_found-IsBalanced account remaining answers in
      let (later, none_later) =
        add_voting_key_unlink_transactions-balance o.remaining files o.answers in
      (
        omega (
          arith,
          kept,
          none_linked,
          later,
          count-append (unlinks p) o.transactions next.transactions,
        ),
        omega (
          arith,
          none_linked,
          none_later,
          count-append (links p) o.transactions next.transactions,
        ),
      )
