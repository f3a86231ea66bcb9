-- ===== src/Config/Peers.antt =====
-- Which peers a node is given.
use symbol_bootstrap.Base.{
  ℕ, ◌≤◌, true, false, List, [], ◌∷◌, ◌≡◌, refl, length, ltb, arith, All, Bool-cases, inl, inr,
  All-map,
}
use mathlib.Core.List.{Memᴰ}
use mathlib.Core.List.Memᴰ.{not-nil, cases_cons}
use symbol_bootstrap.Base.Text.{Text, text, text_eq, contains}
use symbol_bootstrap.Account.Node.{NodeAccount}
use symbol_bootstrap.Remote.Service.{PeerInfo}
use symbol_bootstrap.Config.{is_other_peer, other_peers, generate_p2p_file, peer_files}

-- `_.sampleSize` gives as many elements as it is asked for, at most, all of them from the list.
abbrev pub IsSample : (List PeerInfo → ℕ → List PeerInfo) → Type 0
IsSample sample_size =
    (peers : List PeerInfo) (n : ℕ)
    → (length (sample_size peers n) ≤ n) × All (λ p. Memᴰ p peers) (sample_size peers n)

abbrev pub IsOther : Text → NodeAccount → List PeerInfo → PeerInfo → Type 0
IsOther role account known p =
    Memᴰ p known
    × (contains p.peer_roles role ≡ true)
    × (text_eq p.peer_public_key account.main_account.public_key ≡ false)

in_tail :
    (role : Text) (account : NodeAccount) (q : PeerInfo) (known : List PeerInfo) (p : PeerInfo)
    → IsOther role account known p
    → IsOther role account (q ∷ known) p
in_tail role account q known p (m, h, o) = (Memᴰ.tail m, h, o)

is_other_peer-true :
    (role : Text) (account : NodeAccount) (p : PeerInfo)
    → is_other_peer role account p ≡ true
    → (contains p.peer_roles role ≡ true)
      × (text_eq p.peer_public_key account.main_account.public_key ≡ false)
is_other_peer-true role account p h = ground arith

mem-other_peers :
    (role : Text) (account : NodeAccount) (known : List PeerInfo) (p : PeerInfo)
    → Memᴰ p (other_peers role account known)
    → IsOther role account known p
unfolding other_peers
mem-other_peers role account [] p m = absurd (not-nil m)
mem-other_peers role account (q ∷ known) p m = elim (Bool-cases (is_other_peer role account q)) [
  | inl t ↦ elim (cases_cons (rw t at m)) [
    | inl e ↦
        let (has_role, other) = is_other_peer-true role account p (rw e t) in
        (Memᴰ.head e, has_role, other)
    | inr m' ↦ in_tail role account q known p (mem-other_peers role account known p m')
  ]
  | inr f ↦ in_tail role account q known p (mem-other_peers role account known p (rw f at m))
]

members-All :
    (P : PeerInfo → Type 0) (peers : List PeerInfo)
    → ((p : PeerInfo) → Memᴰ p peers → P p)
    → All P peers
members-All P [] f = tt
members-All P (p ∷ peers) f = (f p (Memᴰ.head refl), members-All P peers (λ q m. f q (Memᴰ.tail m)))

ltb_false→le : (a b : ℕ) → ltb a b ≡ false → b ≤ a
ltb_false→le a b h = ground arith

module _ (sample_size : List PeerInfo → ℕ → List PeerInfo) (sampled : IsSample sample_size) where
  file-IsOther :
      (role : Text) (account : NodeAccount) (known : List PeerInfo) (limit : ℕ)
      → (length (generate_p2p_file sample_size (other_peers role account known) limit) ≤ limit)
        × All
            (IsOther role account known)
            (generate_p2p_file sample_size (other_peers role account known) limit)
  unfolding generate_p2p_file
  file-IsOther role account known limit =
      elim (Bool-cases (ltb limit (length (other_peers role account known)))) [
        | inl t ↦
            let (short, found) = sampled (other_peers role account known) limit in
            rw t (
              short,
              All-map (λ p. Memᴰ p (other_peers role account known)) (IsOther role account known)
                  (mem-other_peers role account known) _ found,
            )
        | inr f ↦ rw f (
          ltb_false→le limit _ f,
          members-All (IsOther role account known) (other_peers role account known)
              (mem-other_peers role account known),
        )
      ]

  -- The peers in the two files of a node are known peers, none of which is the node itself; those in
  -- peers-p2p.json have the role Peer, those in peers-api.json the role Api, and there are not more of
  -- them than the limits say. It is assumed that `_.sampleSize` gives at most as many elements as it is
  -- asked for, all from the list.
  pub peer_files-IsOther :
      (p2p_limit api_limit : ℕ) (account : NodeAccount) (known : List PeerInfo)
      → let (p2p, api) = peer_files sample_size p2p_limit api_limit account known in
        (length p2p ≤ p2p_limit)
        × All (IsOther (text "Peer") account known) p2p
        × (length api ≤ api_limit)
        × All (IsOther (text "Api") account known) api
  unfolding peer_files
  peer_files-IsOther p2p_limit api_limit account known =
      let (a, b) = file-IsOther (text "Peer") account known p2p_limit in
      let (c, d) = file-IsOther (text "Api") account known api_limit in (a, b, c, d)
