-- ===== src/Link/Disjoint.antt =====
-- The voting keys that are linked do not overlap.
use symbol_bootstrap.Base.{
  ℕ, ◌≤◌, ◌≡◌, Bool, true, false, ◌&&◌, List, [], ◌∷◌, find?, filter, leb, ltb, length, arith,
  Bool-cases, Option-cases, inl, inr,
}
use symbol_bootstrap.Voting.File.{VotingKeyAccount}
use symbol_bootstrap.Link.{
  LinkAction, LinkParams, Answers, confirm_unlink, overlaps_voting_accounts,
}
use symbol_bootstrap.Link.Voting.{
  is_same_voting_key, unlink_expired, choose, link_step, link_files,
  add_voting_key_link_transactions,
}
use symbol_bootstrap.Link.Balance.{count, count-remove_overlapping}
use symbol_bootstrap.Link.Overlap.{
  find-none, find-overlaps, IsFewer, remove-IsFewer, remove-IsDisjoint, snoc-IsDisjoint,
  filter-IsDisjoint, filter-IsSingle, snoc-IsSingle, fewer-IsSingle, overlapping, IsDisjoint,
  IsSingle,
}

and-right : (a b : Bool) → (a && b) ≡ true → b ≡ true
and-right true b h = h
and-right false b h = cc

module _ {T : Type 0} (params : LinkParams) (factory : VotingKeyAccount → LinkAction → T) where
  unlink_expired-IsFewer :
      (epoch : ℕ) (linked : List VotingKeyAccount) (answers : Answers)
      → IsFewer (unlink_expired params factory epoch linked answers).remaining linked
  unfolding unlink_expired count
  unlink_expired-IsFewer epoch [] answers p = omega arith
  unlink_expired-IsFewer epoch (a ∷ linked) answers p =
      let later = unlink_expired-IsFewer epoch linked ((confirm_unlink params answers).1) p in
      elim (Bool-cases (ltb a.end_epoch epoch)) [
        | inl e ↦ rw e (elim (Bool-cases ((confirm_unlink params answers).0)) [
          | inl c ↦ rw c (omega (arith, later))
          | inr c ↦ rw c (omega (arith, later))
        ])
        | inr e ↦ rw e (omega (arith, unlink_expired-IsFewer epoch linked answers p))
      ]

  unlink_expired-IsDisjoint :
      (epoch : ℕ) (linked : List VotingKeyAccount) (answers : Answers)
      → IsDisjoint linked
      → IsDisjoint (unlink_expired params factory epoch linked answers).remaining
  unfolding unlink_expired
  unlink_expired-IsDisjoint epoch [] answers h = tt
  unlink_expired-IsDisjoint epoch (a ∷ linked) answers (h, hs) =
      let asked = (confirm_unlink params answers).1 in
      let fewer = unlink_expired-IsFewer epoch linked asked (overlaps_voting_accounts a) in
      elim (Bool-cases (ltb a.end_epoch epoch)) [
        | inl e ↦ rw e (elim (Bool-cases ((confirm_unlink params answers).0)) [
          | inl c ↦ rw c (unlink_expired-IsDisjoint epoch linked asked hs)
          | inr c ↦ rw c (omega (arith, h, fewer), unlink_expired-IsDisjoint epoch linked asked hs)
        ])
        | inr e ↦ rw e (
          omega
              (arith, h, unlink_expired-IsFewer epoch linked answers (overlaps_voting_accounts a)),
          unlink_expired-IsDisjoint epoch linked answers hs,
        )
      ]

  -- What is left is disjoint, and when the key is to be linked nothing that is left overlaps it.
  choose-free :
      (account : VotingKeyAccount) (remaining : List VotingKeyAccount) (answers : Answers)
      → IsDisjoint remaining
      → overlapping account remaining ≤ 1
      → let c =
          choose params factory account
            (find? (overlaps_voting_accounts account) remaining)
            remaining
            answers in
        IsFewer c.left remaining
        × IsDisjoint c.left
        × (c.add ≡ true → overlapping account c.left ≡ 0)
  unfolding choose
  choose-free account remaining answers h single =
      elim (Option-cases (find? (overlaps_voting_accounts account) remaining)) [
        | inl e ↦ rw e (λ p. omega arith, h, λ _. find-none account remaining e)
        | inr (l, e) ↦ rw e (elim (Bool-cases (is_same_voting_key l account)) [
          | inl s ↦ rw s (λ p. omega arith, h, λ k. cc)
          | inr s ↦ rw s (elim (Bool-cases ((confirm_unlink params answers).0)) [
            | inl c ↦ rw c (
              remove-IsFewer account remaining,
              remove-IsDisjoint account remaining h,
              λ _. omega (
                arith,
                rw (find-overlaps account remaining l e) at (
                    count-remove_overlapping (overlaps_voting_accounts account) account remaining l
                      e),
                single,
              ),
            )
            | inr c ↦ rw c (λ p. omega arith, h, λ k. cc)
          ])
        ])
      ]

  link_step-free :
      (account : VotingKeyAccount) (files remaining : List VotingKeyAccount) (answers : Answers)
      → IsDisjoint (account ∷ files)
      → IsDisjoint remaining
      → IsSingle (account ∷ files) remaining
      → let o = link_step params factory account remaining answers in
        IsDisjoint o.remaining × IsSingle files o.remaining
  unfolding link_step
  link_step-free account files remaining answers (apart, _) h (single, singles) =
      let c =
        choose params factory account (find? (overlaps_voting_accounts account) remaining) remaining
          answers in
      let (fewer, disjoint, free) = choose-free account remaining answers h single in
      elim (Bool-cases (ltb (length c.left) 3 && c.add)) [
        | inl e ↦ rw e (
          snoc-IsDisjoint c.left account disjoint
              (free (and-right (ltb (length c.left) 3) c.add e)),
          snoc-IsSingle files remaining c.left account fewer apart singles,
        )
        | inr e ↦ rw e (disjoint, fewer-IsSingle files remaining c.left fewer singles)
      ]

  link_files-IsDisjoint :
      (files remaining : List VotingKeyAccount) (answers : Answers)
      → IsDisjoint files
      → IsDisjoint remaining
      → IsSingle files remaining
      → IsDisjoint (link_files params factory files remaining answers).remaining
  unfolding link_files
  link_files-IsDisjoint [] remaining answers d h s = h
  link_files-IsDisjoint (account ∷ files) remaining answers d h s =
      let o = link_step params factory account remaining answers in
      let (h', s') = link_step-free account files remaining answers d h s in
      link_files-IsDisjoint files o.remaining o.answers (d.1) h' s'

  -- When no two of the linked voting keys overlap, no two of the key files do, and each key file
  -- overlaps at most one of the linked keys, then no two of the keys that are linked afterwards
  -- overlap, whatever the user answers.
  pub add_voting_key_link_transactions-IsDisjoint :
      (linked files : List VotingKeyAccount) (epoch : ℕ) (answers : Answers)
      → IsDisjoint linked
      → IsDisjoint files
      → IsSingle files linked
      → IsDisjoint
          (add_voting_key_link_transactions params factory linked files epoch answers).remaining
  unfolding add_voting_key_link_transactions
  add_voting_key_link_transactions-IsDisjoint linked files epoch answers h d s =
      let o = unlink_expired params factory epoch linked answers in
      let active = λ (a : VotingKeyAccount). leb epoch a.end_epoch in
      link_files-IsDisjoint (filter active files) o.remaining o.answers
        (filter-IsDisjoint active files d) (unlink_expired-IsDisjoint epoch linked answers h)
        (filter-IsSingle active files linked o.remaining
          (unlink_expired-IsFewer epoch linked answers) s)
