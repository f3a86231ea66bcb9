-- ===== src/Link/Order.antt =====
-- The order of the transactions that `createTransactions` returns.
use symbol_bootstrap.Base.{
  ℕ, ◌≡◌, refl, ap, Bool, true, false, not, Option, List, [], ◌∷◌, ◌++◌, filter, All, Bool-cases,
  inl, inr,
}
use symbol_bootstrap.Link.{LinkParams, Answers}
use symbol_bootstrap.Link.Voting.{
  GenericNodeAccount, Transaction, account_key_link, vrf_key_link, voting_key_link, is_unlink,
  insert_by_action, sort_by_action, known_epoch, create_generic_transactions, create_transactions,
}

abbrev pub is_link : Transaction → Bool
is_link t = not (is_unlink t)

insert_unlink :
    (t : Transaction) (ts : List Transaction) → is_unlink t ≡ true → insert_by_action t ts ≡ t ∷ ts
unfolding insert_by_action
insert_unlink t [] h = refl
insert_unlink t (u ∷ us) h = rw h

insert_link :
    (t : Transaction) (us ls : List Transaction)
    → is_unlink t ≡ false
    → All (λ u. is_unlink u ≡ true) us
    → All (λ u. is_unlink u ≡ false) ls
    → insert_by_action t (us ++ ls) ≡ us ++ t ∷ ls
unfolding insert_by_action
insert_link t [] [] h _ _ = refl
insert_link t [] (l ∷ ls) h _ (k, ks) = rw h (rw k)
insert_link t (u ∷ us) ls h (k, ks) hs =
    rw h (rw k (ap (λ vs. u ∷ vs) (insert_link t us ls h ks hs)))

All-filter-unlink : (ts : List Transaction) → All (λ u. is_unlink u ≡ true) (filter is_unlink ts)
All-filter-unlink [] = tt
All-filter-unlink (t ∷ ts) = elim (Bool-cases (is_unlink t)) [
  | inl h ↦ rw h (h, All-filter-unlink ts)
  | inr h ↦ rw h (All-filter-unlink ts)
]

All-filter-link : (ts : List Transaction) → All (λ u. is_unlink u ≡ false) (filter is_link ts)
All-filter-link [] = tt
All-filter-link (t ∷ ts) = elim (Bool-cases (is_unlink t)) [
  | inl h ↦ rw h (All-filter-link ts)
  | inr h ↦ rw h (h, All-filter-link ts)
]

sort_by_action-eq :
    (ts : List Transaction) → sort_by_action ts ≡ filter is_unlink ts ++ filter is_link ts
unfolding sort_by_action
sort_by_action-eq [] = refl
sort_by_action-eq (t ∷ ts) = elim (Bool-cases (is_unlink t)) [
  | inl h ↦
      rw (sort_by_action-eq ts)
        (rw h (insert_unlink t (filter is_unlink ts ++ filter is_link ts) h))
  | inr h ↦ rw (sort_by_action-eq ts) (
      rw h (
        insert_link t (filter is_unlink ts) (filter is_link ts) h (All-filter-unlink ts)
          (All-filter-link ts)))
]

-- The transactions of a node are those that the generic factory creates, the ones that unlink
-- first, and otherwise in the order in which it creates them: none is lost and none is added.
pub create_transactions-order :
    (params : LinkParams) (current node : GenericNodeAccount) (latest : Option ℕ) (last : ℕ)
    (answers : Answers)
    → let created =
        create_generic_transactions params account_key_link vrf_key_link voting_key_link current
          node
          (known_epoch latest last)
          answers in
      create_transactions params current node latest last answers
      ≡ filter is_unlink created ++ filter is_link created
unfolding create_transactions
create_transactions-order params current node latest last answers = sort_by_action-eq (
    create_generic_transactions params account_key_link vrf_key_link voting_key_link current node
      (known_epoch latest last) answers)
