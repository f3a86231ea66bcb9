-- ===== src/Config/Genesis/Stored.antt =====
-- The files that the nemesis block is to get.
use symbol_bootstrap.Base.{
  Bool, true, false, filter, not, none, some, List, [], ◌∷◌, ◌++◌, ◌≡◌, refl, ap, sym, ◌∙◌, map,
  any, All, ◌+◌, arith, if◌then◌else◌,
}
use symbol_bootstrap.Base.Counting.{count}
use symbol_bootstrap.Base.Text.{Text, text, text_eq}
use symbol_bootstrap.Action.{Action, done, ◌>>=◌}
use symbol_bootstrap.Config.Genesis.{
  LinkTransaction, vrf_key_link, account_key_link, ConfigSdk, NemesisNode, Stored, bin_name,
  nemesis_nodes, for_each, voting_link,
}

-- The files are written in some order, onto others.
unfoldable pub onto : Stored → Stored → Stored
onto [] s = s
onto (file ∷ files) s = onto files (file ∷ s)

pub onto-append : (a b s : Stored) → onto (a ++ b) s ≡ onto b (onto a s)
unfolding onto
onto-append [] b s = refl
onto-append (file ∷ a) b s = onto-append a b (file ∷ s)

pub onto_parts :
    (a b c d s : Stored) → onto (a ++ b ++ c ++ d) s ≡ onto d (onto c (onto b (onto a s)))
onto_parts a b c d s =
    onto-append (a ++ b ++ c) d s
    ∙ ap (onto d) (onto-append (a ++ b) c s ∙ ap (onto c) (onto-append a b s))

pub count-onto :
    (p : Text × Text → Bool) (files s : Stored) → count p (onto files s) ≡ count p files + count p s
unfolding onto count
count-onto p [] s = omega arith
count-onto p (file ∷ files) s = omega (arith, count-onto p files (file ∷ s))

pub All-parts :
    {A : Type 0} (P : A → Type 0) (xs ys : List A) → All P (xs ++ ys) → All P xs × All P ys
All-parts P [] ys h = (tt, h)
All-parts P (x ∷ xs) ys (p, h) = let (k, l) = All-parts P xs ys h in ((p, k), l)

abbrev pub included_nodes : List NemesisNode → List NemesisNode
included_nodes all_nodes = filter (λ n. not n.excluded) all_nodes

one_more :
    (b : Bool) (n : NemesisNode) (a c : List NemesisNode)
    → a ≡ c
    → (if b then a else n ∷ a) ≡ (if not b then n ∷ c else c)
one_more true n a c e = e
one_more false n a c e = ap (λ rest. n ∷ rest) e

pub nemesis_nodes-filter :
    (all_nodes : List NemesisNode) → nemesis_nodes all_nodes ≡ included_nodes all_nodes
unfolding nemesis_nodes
nemesis_nodes-filter [] = refl
nemesis_nodes-filter (n ∷ nodes) = one_more n.excluded n _ _ (nemesis_nodes-filter nodes)

module _ {A : Type 0} (files : A → Stored) where
  unfoldable pub flat_map : List A → Stored
  flat_map [] = []
  flat_map (x ∷ xs) = files x ++ flat_map xs

  pub for_each-done :
      (P : A → Type 0) (Q : Text × Text → Type 0) (f : A → Action Stored (Unit {0}))
      → ((x : A) (s : Stored) → P x → All Q (files x) → f x s ≡ done tt (onto (files x) s))
      → (xs : List A) (s : Stored) → All P xs
      → All Q (flat_map xs)
      → for_each f xs s ≡ done tt (onto (flat_map xs) s)
  unfolding for_each flat_map ◌>>=◌ onto
  for_each-done P Q f e [] s h k = refl
  for_each-done P Q f e (x ∷ xs) s (h, hs) k =
      let (first, others) = All-parts Q (files x) (flat_map xs) k in
      rw (e x s h first) (
        for_each-done P Q f e xs (onto (files x) s) hs others
        ∙ ap (λ t. done tt t) (sym (onto-append (files x) (flat_map xs) s)))

module _ (sdk : ConfigSdk) (signer : Text → Text → sdk.Signer) where
  -- The file of a link that the main account of a node signs.
  abbrev pub link_file : NemesisNode → Text → LinkTransaction → Text × Text
  link_file n prefix link =
      (bin_name (prefix ++ n.name), sdk.sign (signer n.name n.main_public_key) link)

  abbrev pub vrf_files : NemesisNode → Stored
  vrf_files n = elim n.vrf_public_key [
    | none ↦ []
    | some key ↦ link_file n (text "vrf_") (vrf_key_link key) ∷ []
  ]

  abbrev pub remote_files : NemesisNode → Stored
  remote_files n = elim n.remote_public_key [
    | none ↦ []
    | some key ↦ link_file n (text "remote_") (account_key_link key) ∷ []
  ]

  abbrev pub voting_files : NemesisNode → Stored
  voting_files n = map (λ f. link_file n (text "voting_") (voting_link f)) n.voting

  unfoldable pub provided_files : List Text → List (Text × Text) → Stored
  provided_files hashes [] = []
  provided_files hashes ((key, payload) ∷ transactions) =
      let later = provided_files hashes transactions in
      let others = provided_files (hashes ++ sdk.transaction_hash payload ∷ []) transactions in
      if any (text_eq (sdk.transaction_hash payload)) hashes
      then later
      else (bin_name key, payload) ∷ others

  -- The files of the links of the nodes, and the transactions of the preset.
  abbrev pub transaction_files : List NemesisNode → List (Text × Text) → Stored
  transaction_files nodes transactions =
      flat_map vrf_files nodes
      ++ flat_map remote_files nodes
      ++ flat_map voting_files nodes
      ++ provided_files [] transactions
