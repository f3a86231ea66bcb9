-- ===== src/Config/Distinct.antt =====
-- The peers of the network are there once.
use symbol_bootstrap.Base.{
  ℕ, ◌+◌, Bool, true, false, Option, List, [], ◌∷◌, ◌++◌, ◌≡◌, refl, ap, ◌∙◌, any, arith, sym,
  Bool-cases, inl, inr, if◌then◌else◌,
}
use symbol_bootstrap.Base.Counting.{one, count}
use symbol_bootstrap.Base.Text.{Text, text_eq, text_eq-eq}
use symbol_bootstrap.Base.Result.{returned, >>=-eq-returned}
use symbol_bootstrap.Account.Node.{NodePreset, NodeAccount}
use symbol_bootstrap.Remote.Service.{PeerInfo}
use symbol_bootstrap.Config.{local_peers, same_key, uniq_by_key, all_peers}

abbrev pub has_key : Text → PeerInfo → Bool
has_key k p = text_eq k p.peer_public_key

module _ (k : Text) where
  if_same : (b : Bool) → ◌≡◌ {A = ℕ} 0 (if b then 0 else 0)
  if_same true = refl
  if_same false = refl

  count_other :
      (p : PeerInfo) (b : Bool) (peers : List PeerInfo)
      → has_key k p ≡ false
      → count (has_key k) (if b then peers else p ∷ peers) ≡ count (has_key k) peers
  unfolding count
  count_other p true peers h = refl
  count_other p false peers h = rw h (omega arith)

  count-uniq_by_key :
      (seen peers : List PeerInfo)
      → count (has_key k) (uniq_by_key seen peers)
        ≡ (if any (has_key k) seen then 0 else one (any (has_key k) peers))
  unfolding count uniq_by_key
  count-uniq_by_key seen [] = if_same (any (has_key k) seen)
  count-uniq_by_key seen (p ∷ peers) = elim (Bool-cases (has_key k p)) [
    | inl t ↦
        let rest : count (has_key k) (uniq_by_key (p ∷ seen) peers) ≡ 0 =
          rw t at (count-uniq_by_key (p ∷ seen) peers) in
        let seen_p : any (same_key p) seen ≡ any (has_key k) seen =
          ap (λ u. any (λ q. text_eq u q.peer_public_key) seen)
            (sym (text_eq-eq k p.peer_public_key t)) in
        rw seen_p (elim (Bool-cases (any (has_key k) seen)) [
          | inl s ↦ rw s rest
          | inr n ↦ rw n (rw t (ap (λ c. 1 + c) rest))
        ])
    | inr f ↦ rw f (
        count_other p (any (same_key p) seen) (uniq_by_key (p ∷ seen) peers) f
        ∙ rw f at (count-uniq_by_key (p ∷ seen) peers))
  ]

-- Every public key among the peers that are known from outside and those of the network is there once
-- in the list that the nodes get, and no other key is.
pub all_peers-distinct :
    (external known : List PeerInfo) (presets : List (NodePreset × Option Text))
    (nodes : List NodeAccount) (k : Text)
    → all_peers external presets nodes ≡ returned known
    → (peers : List PeerInfo) × (local_peers presets nodes ≡ returned peers)
      × (count (has_key k) known ≡ one (any (has_key k) (external ++ peers)))
unfolding all_peers
all_peers-distinct external known presets nodes k h =
    let (peers, made, h') = >>=-eq-returned (local_peers presets nodes) _ h in
    let same : uniq_by_key [] (external ++ peers) ≡ known = ground (arith, h') in
    (peers, made, rw (← same) (count-uniq_by_key k [] (external ++ peers)))
