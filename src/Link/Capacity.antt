-- ===== src/Link/Capacity.antt =====
-- How many voting keys are linked: the network allows three for an account.
use symbol_bootstrap.Base.{
  ℕ, ◌≤◌, ◌≡◌, refl, Bool, true, false, ◌&&◌, List, [], ◌∷◌, find?, filter, leb, ltb, length,
  length-append, max, ltb→lt, arith, Bool-cases, Option-cases, inl, inr,
}
use symbol_bootstrap.Voting.File.{VotingKeyAccount}
use symbol_bootstrap.Link.{
  LinkAction, LinkParams, Answers, confirm_unlink, overlaps_voting_accounts,
}
use symbol_bootstrap.Link.Voting.{
  remove_overlapping, is_same_voting_key, unlink_expired, choose, link_step, link_files,
  add_voting_key_link_transactions,
}

pub length-remove_overlapping :
    (account : VotingKeyAccount) (xs : List VotingKeyAccount)
    → length (remove_overlapping account xs) ≤ length xs
unfolding remove_overlapping
length-remove_overlapping account [] = omega arith
length-remove_overlapping account (x ∷ xs) =
    elim (Bool-cases (overlaps_voting_accounts account x)) [
      | inl e ↦ rw e (omega arith)
      | inr e ↦ rw e (omega (arith, length-remove_overlapping account xs))
    ]

both : (a b : Bool) → (a && b) ≡ true → a ≡ true
both true b h = refl
both false b h = cc

module _ {T : Type 0} (params : LinkParams) (factory : VotingKeyAccount → LinkAction → T) where
  length-unlink_expired :
      (epoch : ℕ) (linked : List VotingKeyAccount) (answers : Answers)
      → length (unlink_expired params factory epoch linked answers).remaining ≤ length linked
  unfolding unlink_expired
  length-unlink_expired epoch [] answers = omega arith
  length-unlink_expired epoch (a ∷ linked) answers =
      let later = length-unlink_expired epoch linked ((confirm_unlink params answers).1) in
      elim (Bool-cases (ltb a.end_epoch epoch)) [
        | inl e ↦ rw e (elim (Bool-cases ((confirm_unlink params answers).0)) [
          | inl c ↦ rw c (omega (arith, later))
          | inr c ↦ rw c (omega (arith, later))
        ])
        | inr e ↦ rw e (omega (arith, length-unlink_expired epoch linked answers))
      ]

  length-choose :
      (account : VotingKeyAccount) (remaining : List VotingKeyAccount) (answers : Answers)
      → length
          (choose params factory account
            (find? (overlaps_voting_accounts account) remaining)
            remaining
            answers).left
        ≤ length remaining
  unfolding choose
  length-choose account remaining answers =
      elim (Option-cases (find? (overlaps_voting_accounts account) remaining)) [
        | inl e ↦ rw e (omega arith)
        | inr (l, e) ↦ rw e (elim (Bool-cases (is_same_voting_key l account)) [
          | inl s ↦ rw s (omega arith)
          | inr s ↦ rw s (elim (Bool-cases ((confirm_unlink params answers).0)) [
            | inl c ↦ rw c (length-remove_overlapping account remaining)
            | inr c ↦ rw c (omega arith)
          ])
        ])
      ]

  length-link_step :
      (account : VotingKeyAccount) (remaining : List VotingKeyAccount) (answers : Answers)
      → length (link_step params factory account remaining answers).remaining
        ≤ max 3 (length remaining)
  unfolding link_step
  length-link_step account remaining answers =
      let c =
        choose params factory account (find? (overlaps_voting_accounts account) remaining) remaining
          answers in
      let fewer = length-choose account remaining answers in
      elim (Bool-cases (ltb (length c.left) 3 && c.add)) [
        | inl e ↦ rw e (
            omega (
              arith,
              length-append c.left (account ∷ []),
              ltb→lt (length c.left) 3 (both (ltb (length c.left) 3) c.add e),
            ))
        | inr e ↦ rw e (omega (arith, fewer))
      ]

  length-link_files :
      (files remaining : List VotingKeyAccount) (answers : Answers)
      → length (link_files params factory files remaining answers).remaining
        ≤ max 3 (length remaining)
  unfolding link_files
  length-link_files [] remaining answers = omega arith
  length-link_files (account ∷ files) remaining answers =
      let o = link_step params factory account remaining answers in
      omega (
        arith,
        length-link_step account remaining answers,
        length-link_files files o.remaining o.answers,
      )

  -- Linking leaves at most three voting keys linked, or no more than were linked before, whatever
  -- the key files are and the user answers.
  pub add_voting_key_link_transactions-capacity :
      (linked files : List VotingKeyAccount) (epoch : ℕ) (answers : Answers)
      → length
          (add_voting_key_link_transactions params factory linked files epoch answers).remaining
        ≤ max 3 (length linked)
  unfolding add_voting_key_link_transactions
  add_voting_key_link_transactions-capacity linked files epoch answers =
      let o = unlink_expired params factory epoch linked answers in
      omega (
        arith,
        length-unlink_expired epoch linked answers,
        length-link_files (filter (λ a. leb epoch a.end_epoch) files) o.remaining o.answers,
      )
