-- ===== src/Remote/Best.antt =====
-- The gateway that `getBestRepositoryInfo` chooses.
use symbol_bootstrap.Base.{
  ◌≤◌, ◌≡◌, refl, ap, Option, some, List, [], ◌∷◌, ltb, arith, All, Bool-cases, Option-cases, inl,
  inr, if◌then◌else◌,
}
use mathlib.Core.List.{Memᴰ}
use mathlib.Core.List.Memᴰ
use symbol_bootstrap.Base.Text.{Text}
use symbol_bootstrap.Base.Result.{returned}
use symbol_bootstrap.Remote.{
  ChainInfo, RepositoryInfo, insert_by_height, sort_by_height, answering,
  known_node_repository_infos, best_repository_info, first_of,
}

-- None of the gateways is higher.
abbrev pub IsHighest : RepositoryInfo → List RepositoryInfo → Type 0
IsHighest best rs = All (λ r. r.chain_info.height ≤ best.chain_info.height) rs

-- `best` stands first in the sorted list, one of `rs`, as high as all of them.
abbrev IsBest : RepositoryInfo → List RepositoryInfo → List RepositoryInfo → Type 0
IsBest best sorted rs = (first_of sorted ≡ some best) × Memᴰ best rs × IsHighest best rs

some_value : (a b : RepositoryInfo) → some a ≡ some b → a ≡ b
some_value a b h = cc

first_of-insert :
    (r best : RepositoryInfo) (sorted : List RepositoryInfo)
    → first_of sorted ≡ some best
    → first_of (insert_by_height r sorted)
      ≡ some (if ltb r.chain_info.height best.chain_info.height then best else r)
unfolding insert_by_height
first_of-insert r best [] h = cc
first_of-insert r best (s ∷ rs) h =
    rw (← some_value s best h) (elim (Bool-cases (ltb r.chain_info.height s.chain_info.height)) [
      | inl t ↦ rw t refl
      | inr t ↦ rw t refl
    ])

IsHighest-le :
    (a b : RepositoryInfo) (rs : List RepositoryInfo)
    → b.chain_info.height ≤ a.chain_info.height
    → IsHighest b rs
    → IsHighest a rs
IsHighest-le a b [] h k = tt
IsHighest-le a b (r ∷ rs) h (l, k) = (omega arith, IsHighest-le a b rs h k)

sort_by_height-IsBest :
    (r : RepositoryInfo) (rs : List RepositoryInfo)
    → (best : RepositoryInfo) × IsBest best (sort_by_height (r ∷ rs)) (r ∷ rs)
unfolding sort_by_height insert_by_height
sort_by_height-IsBest r [] = (r, (refl, Memᴰ.head refl, (omega arith, tt)))
sort_by_height-IsBest r (s ∷ rs) =
    let (best, (first, member, highest)) = sort_by_height-IsBest s rs in
    let inserted = first_of-insert r best (sort_by_height (s ∷ rs)) first in
    elim (Bool-cases (ltb r.chain_info.height best.chain_info.height)) [
      | inl t ↦ (best, (rw t at inserted, Memᴰ.tail member, (ground (arith, t), highest)))
      | inr t ↦ (
        r,
        (
          rw t at inserted,
          Memᴰ.head refl,
          (omega arith, IsHighest-le r best (s ∷ rs) (ground (arith, t)) highest),
        ),
      )
    ]

member-IsBest :
    (r : RepositoryInfo) (rs : List RepositoryInfo)
    → Memᴰ r rs
    → (best : RepositoryInfo) × IsBest best (sort_by_height rs) rs
member-IsBest r [] m = absurd (Memᴰ.not-nil m)
member-IsBest r (s ∷ rs) m = sort_by_height-IsBest s rs

module _ (chain : Text → Option ChainInfo) where
  -- A gateway that answered.
  abbrev IsAnswer : List Text → RepositoryInfo → Type 0
  IsAnswer urls r = Memᴰ r.rest_gateway_url urls × (chain r.rest_gateway_url ≡ some r.chain_info)

  answering-IsAnswer :
      (urls : List Text) (r : RepositoryInfo) → Memᴰ r (answering chain urls) → IsAnswer urls r
  unfolding answering
  answering-IsAnswer [] r m = absurd (Memᴰ.not-nil m)
  answering-IsAnswer (u ∷ urls) r m = elim (Option-cases (chain u)) [
    | inl n ↦
        let (found, answered) = answering-IsAnswer urls r (rw (answering, n) at m) in
        (Memᴰ.tail found, answered)
    | inr (c, e) ↦ elim (Memᴰ.cases_cons (rw (answering, e) at m)) [
      | inl same ↦ simp (same) (Memᴰ.head refl, e)
      | inr later ↦
          let (found, answered) = answering-IsAnswer urls r later in (Memᴰ.tail found, answered)
    ]
  ]

  answering-answers :
      (urls : List Text) (u : Text) (c : ChainInfo)
      → Memᴰ u urls
      → chain u ≡ some c
      → Memᴰ (record { rest_gateway_url = u; chain_info = c }) (answering chain urls)
  unfolding answering
  answering-answers [] u c m h = absurd (Memᴰ.not-nil m)
  answering-answers (u₂ ∷ urls) u c (Memᴰ.head e) h =
      rw (answering, ← e, h)
        (Memᴰ.head (ap (λ z. record { rest_gateway_url = z; chain_info = c }) e))
  answering-answers (u₂ ∷ urls) u c (Memᴰ.tail m) h = elim (Option-cases (chain u₂)) [
    | inl n ↦ rw (answering, n) (answering-answers urls u c m h)
    | inr (c₂, e) ↦ rw (answering, e) (Memᴰ.tail (answering-answers urls u c m h))
  ]

  IsHighest-member :
      (best r : RepositoryInfo) (rs : List RepositoryInfo)
      → IsHighest best rs
      → Memᴰ r rs
      → r.chain_info.height ≤ best.chain_info.height
  IsHighest-member best r [] h m = absurd (Memᴰ.not-nil m)
  IsHighest-member best r (s ∷ rs) (l, h) (Memᴰ.head e) = rw e l
  IsHighest-member best r (s ∷ rs) (l, h) (Memᴰ.tail m) = IsHighest-member best r rs h m

  -- When one of the gateways answers, one of those that answer is returned, with the chain info that
  -- it gave, and it is at least as high as the one that answers.
  pub best_repository_info-highest :
      (urls : List Text) (u : Text) (c : ChainInfo)
      → Memᴰ u urls
      → chain u ≡ some c
      → (best : RepositoryInfo) × (best_repository_info chain urls ≡ returned best)
        × Memᴰ best.rest_gateway_url urls
        × (chain best.rest_gateway_url ≡ some best.chain_info)
        × c.height ≤ best.chain_info.height
  unfolding best_repository_info known_node_repository_infos
  best_repository_info-highest [] u c m h = absurd (Memᴰ.not-nil m)
  best_repository_info-highest (u₂ ∷ urls) u c m h =
      let answered = answering-answers (u₂ ∷ urls) u c m h in
      let (best, (first, member, highest)) = member-IsBest _ _ answered in
      let (known, gave) = answering-IsAnswer (u₂ ∷ urls) best member in
      (best, rw first refl, known, gave, IsHighest-member best _ _ highest answered)
