-- ===== src/Config/Genesis/Links.antt =====
-- Which transactions the nemesis block gets.
use symbol_bootstrap.Base.{
  Bool, true, false, List, [], ◌∷◌, ◌++◌, ◌≡◌, refl, ap, sym, ◌∙◌, map, any, All, ◌+◌, Option-cases,
  inl, inr, Bool-cases, if◌then◌else◌,
}
use symbol_bootstrap.Base.Counting.{count}
use symbol_bootstrap.Base.Text.{Text, text, text_eq}
use symbol_bootstrap.Base.Result.{Result, returned}
use symbol_bootstrap.Action.{done, pure, lift, ◌>>=◌}
use symbol_bootstrap.Config.Genesis.{
  LinkTransaction, vrf_key_link, account_key_link, ConfigSdk, VotingKeyFile, NemesisNode, Stored,
  bin_name, for_each, voting_link, store_transaction, sign_and_store, create_vrf_transaction,
  create_account_key_link_transaction, create_voting_key_transactions, store_provided,
  generate_transactions,
}
use symbol_bootstrap.Config.Genesis.Stored.{
  onto, onto_parts, count-onto, All-parts, included_nodes, nemesis_nodes-filter, flat_map,
  for_each-done, link_file, vrf_files, remote_files, voting_files, provided_files,
  transaction_files,
}

module _ (sdk : ConfigSdk) (signer : Text → Text → sdk.Signer) where
  -- The file can be written.
  abbrev pub IsWritten : Text × Text → Type 0
  IsWritten (name, payload) = sdk.write_outcome name payload ≡ returned tt

  abbrev pub IsRead : Text × Text → Type 0
  IsRead (key, payload) = sdk.check_payload payload ≡ returned tt

  module _ (resolve_main : Text → Text → Result sdk.Signer)
      (reads : (account : sdk.Signer) (link : LinkTransaction)
        → sdk.check_payload (sdk.sign account link) ≡ returned tt) where
    -- The main account of the node is resolved.
    abbrev pub IsResolved : NemesisNode → Type 0
    IsResolved n =
        resolve_main n.name n.main_public_key ≡ returned (signer n.name n.main_public_key)

    store_transaction-done :
        (name payload : Text) (s : Stored)
        → sdk.check_payload payload ≡ returned tt
        → IsWritten (bin_name name, payload)
        → store_transaction sdk name payload s ≡ done tt ((bin_name name, payload) ∷ s)
    unfolding store_transaction ◌>>=◌ lift
    store_transaction-done name payload s h k = rw (h, k) refl

    sign_and_store-done :
        (n : NemesisNode) (prefix : Text) (link : LinkTransaction) (s : Stored)
        → IsResolved n
        → IsWritten (link_file sdk signer n prefix link)
        → sign_and_store sdk resolve_main n (prefix ++ n.name) link s
          ≡ done tt (link_file sdk signer n prefix link ∷ s)
    unfolding sign_and_store ◌>>=◌ lift
    sign_and_store-done n prefix link s h k = rw h (store_transaction-done _ _ s (reads _ link) k)

    create_vrf_transaction-done :
        (n : NemesisNode) (s : Stored)
        → IsResolved n
        → All IsWritten (vrf_files sdk signer n)
        → create_vrf_transaction sdk resolve_main n s ≡ done tt (onto (vrf_files sdk signer n) s)
    unfolding create_vrf_transaction onto pure
    create_vrf_transaction-done n s h k = elim (Option-cases n.vrf_public_key) [
      | inl e ↦ rw (e, create_vrf_transaction) refl
      | inr (key, e) ↦
          let (w, _) = rw e at k in
          rw (e, create_vrf_transaction)
            (sign_and_store-done n (text "vrf_") (vrf_key_link key) s h w)
    ]

    create_account_key_link_transaction-done :
        (n : NemesisNode) (s : Stored)
        → IsResolved n
        → All IsWritten (remote_files sdk signer n)
        → create_account_key_link_transaction sdk resolve_main n s
          ≡ done tt (onto (remote_files sdk signer n) s)
    unfolding create_account_key_link_transaction onto pure
    create_account_key_link_transaction-done n s h k = elim (Option-cases n.remote_public_key) [
      | inl e ↦ rw (e, create_account_key_link_transaction) refl
      | inr (key, e) ↦
          let (w, _) = rw e at k in
          rw (e, create_account_key_link_transaction)
            (sign_and_store-done n (text "remote_") (account_key_link key) s h w)
    ]

    voting_files-done :
        (n : NemesisNode) (fs : List VotingKeyFile) (s : Stored)
        → All IsWritten (map (λ f. (link_file sdk signer) n (text "voting_") (voting_link f)) fs)
        → for_each
            (λ f.
              store_transaction sdk
                (text "voting_" ++ n.name)
                (sdk.sign (signer n.name n.main_public_key) (voting_link f)))
            fs
            s
          ≡ done tt
              (onto (map (λ f. (link_file sdk signer) n (text "voting_") (voting_link f)) fs) s)
    unfolding for_each onto pure ◌>>=◌
    voting_files-done n [] s h = refl
    voting_files-done n (f ∷ fs) s (h, hs) =
        rw (store_transaction-done (text "voting_" ++ n.name) _ s (reads _ (voting_link f)) h)
          (voting_files-done n fs _ hs)

    create_voting_key_transactions-done :
        (n : NemesisNode) (s : Stored)
        → IsResolved n
        → All IsWritten (voting_files sdk signer n)
        → create_voting_key_transactions sdk resolve_main n s
          ≡ done tt (onto (voting_files sdk signer n) s)
    unfolding create_voting_key_transactions ◌>>=◌ lift
    create_voting_key_transactions-done n s h k = rw h (voting_files-done n n.voting s k)

    provided_rest :
        (b : Bool) (later others : Stored) (file : Text × Text)
        → b ≡ true
        → All IsWritten (if b then later else file ∷ others)
        → All IsWritten later
    provided_rest true later others file e h = h
    provided_rest false later others file e h = cc

    provided_first :
        (b : Bool) (later others : Stored) (file : Text × Text)
        → b ≡ false
        → All IsWritten (if b then later else file ∷ others)
        → IsWritten file × All IsWritten others
    provided_first true later others file e h = cc
    provided_first false later others file e h = h

    store_provided-done :
        (hashes : List Text) (transactions : List (Text × Text)) (s : Stored)
        → All IsRead transactions
        → All IsWritten (provided_files sdk signer hashes transactions)
        → store_provided sdk hashes transactions s
          ≡ done tt (onto (provided_files sdk signer hashes transactions) s)
    unfolding store_provided provided_files onto pure ◌>>=◌
    store_provided-done hashes [] s r w = refl
    store_provided-done hashes ((key, payload) ∷ transactions) s (r, rs) w =
        elim (Bool-cases (any (text_eq (sdk.transaction_hash payload)) hashes)) [
          | inl t ↦ rw t (store_provided-done hashes transactions s rs (provided_rest _ _ _ _ t w))
          | inr f ↦
              let (first, others) = provided_first _ _ _ _ f w in
              rw f (
                rw (store_transaction-done key payload s r first) (
                  store_provided-done (hashes ++ sdk.transaction_hash payload ∷ []) transactions _
                    rs others))
        ]

    generate_transactions-onto :
        (all_nodes : List NemesisNode) (transactions : List (Text × Text)) (s : Stored)
        → All IsResolved (included_nodes all_nodes)
        → All IsRead transactions
        → All IsWritten ((transaction_files sdk signer) (included_nodes all_nodes) transactions)
        → generate_transactions sdk resolve_main all_nodes transactions s
          ≡ done tt
              (onto ((transaction_files sdk signer) (included_nodes all_nodes) transactions) s)
    unfolding generate_transactions ◌>>=◌
    generate_transactions-onto all_nodes transactions s resolved r w =
        let nodes = included_nodes all_nodes in
        let (w₃, provided_written) =
          All-parts IsWritten
            (flat_map (vrf_files sdk signer) nodes
              ++ flat_map (remote_files sdk signer) nodes
              ++ flat_map (voting_files sdk signer) nodes)
            (provided_files sdk signer [] transactions) w in
        let (w₂, voting_written) =
          All-parts IsWritten
            (flat_map (vrf_files sdk signer) nodes ++ flat_map (remote_files sdk signer) nodes)
            (flat_map (voting_files sdk signer) nodes) w₃ in
        let (vrf_written, remote_written) =
          All-parts IsWritten (flat_map (vrf_files sdk signer) nodes)
            (flat_map (remote_files sdk signer) nodes) w₂ in
        let vrf =
          for_each-done (vrf_files sdk signer) IsResolved IsWritten
            (create_vrf_transaction sdk resolve_main) create_vrf_transaction-done nodes s resolved
            vrf_written in
        let after_vrf = onto (flat_map (vrf_files sdk signer) nodes) s in
        let remote =
          for_each-done (remote_files sdk signer) IsResolved IsWritten
            (create_account_key_link_transaction sdk resolve_main)
            create_account_key_link_transaction-done nodes after_vrf resolved remote_written in
        let after_remote = onto (flat_map (remote_files sdk signer) nodes) after_vrf in
        let voting =
          for_each-done (voting_files sdk signer) IsResolved IsWritten
            (create_voting_key_transactions sdk resolve_main) create_voting_key_transactions-done
            nodes after_remote resolved voting_written in
        rw (nemesis_nodes-filter all_nodes) (
          rw vrf (
            rw remote (
              rw voting (
                store_provided-done [] transactions
                  (onto (flat_map (voting_files sdk signer) nodes) after_remote) r provided_written
                ∙ ap (λ t. done tt t)
                    (sym (
                      onto_parts (flat_map (vrf_files sdk signer) nodes)
                        (flat_map (remote_files sdk signer) nodes)
                        (flat_map (voting_files sdk signer) nodes)
                        (provided_files sdk signer [] transactions) s))))))

    -- When the main accounts of the nodes that are not excluded are resolved, the SDK reads the
    -- payloads that it signs and those of the preset, and the files can be written, the transactions
    -- of the nemesis block are made. The files that are then written, each as often as it is
    -- listed, are those that were written before, for each node that is not excluded the link of
    -- its VRF key and that of its remote key, where it has them, and that of each of its voting
    -- keys, signed by its main account, and the transactions of the preset but those with the hash of
    -- an earlier one. All links of the voting keys of a node have one file name.
    pub generate_transactions-done :
        (all_nodes : List NemesisNode) (transactions : List (Text × Text)) (s : Stored)
        (p : Text × Text → Bool)
        → All IsResolved (included_nodes all_nodes)
        → All IsRead transactions
        → All IsWritten ((transaction_files sdk signer) (included_nodes all_nodes) transactions)
        → (t : Stored) × (generate_transactions sdk resolve_main all_nodes transactions s
            ≡ done tt t)
          × (count p t
              ≡ count p ((transaction_files sdk signer) (included_nodes all_nodes) transactions)
                + count p s)
    generate_transactions-done all_nodes transactions s p h r w =
        let files = (transaction_files sdk signer) (included_nodes all_nodes) transactions in
        (
          onto files s,
          generate_transactions-onto all_nodes transactions s h r w,
          count-onto p files s,
        )
