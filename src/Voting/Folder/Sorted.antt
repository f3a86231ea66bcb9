-- ===== src/Voting/Folder/Sorted.antt =====
-- The order of the loaded files, and what one more file does to it.
use symbol_bootstrap.Base.{
  ℕ, ◌≤◌, ◌<◌, ◌≡◌, refl, ap, ◌∙◌, true, false, List, [], ◌∷◌, ◌++◌, leb, arith, All, Bool-cases,
  inl, inr, le→leb,
}
use symbol_bootstrap.Base.Text.{Text, text_eq}
use symbol_bootstrap.Base.Result.{Result, returned, raised, ◌>>=◌}
use symbol_bootstrap.Voting.File.{Bytes, Convert, VotingKeyAccount, read_voting_file}
use symbol_bootstrap.Voting.Folder.{
  DirEntry, Folder, VotingKeyFile, is_voting_file, insert_by_start, sort_by_start,
  read_voting_files, write_file,
}

-- The epochs of each file are in order, and lie before those of the next.
abbrev pub IsChain : List VotingKeyFile → Type 0
IsChain [] = Unit
IsChain (f ∷ []) = f.start_epoch ≤ f.end_epoch
IsChain (f ∷ g ∷ fs) =
    (f.start_epoch ≤ f.end_epoch) × (f.end_epoch < g.start_epoch) × IsChain (g ∷ fs)

-- The end epoch of the last file, or 0.
abbrev pub last_end : List VotingKeyFile → ℕ
last_end [] = 0
last_end (f ∷ []) = f.end_epoch
last_end (f ∷ g ∷ fs) = last_end (g ∷ fs)

first-le-last_end :
    (f : VotingKeyFile) (fs : List VotingKeyFile)
    → IsChain (f ∷ fs)
    → f.start_epoch ≤ last_end (f ∷ fs)
first-le-last_end f [] h = h
first-le-last_end f (g ∷ fs) (a, b, h) = omega (arith, first-le-last_end g fs h)

pub All-start-le-last_end :
    (fs : List VotingKeyFile) → IsChain fs → All (λ f. f.start_epoch ≤ last_end fs) fs
All-start-le-last_end [] h = tt
All-start-le-last_end (f ∷ []) h = (h, tt)
All-start-le-last_end (f ∷ g ∷ fs) (a, b, h) =
    (omega (arith, first-le-last_end g fs h), All-start-le-last_end (g ∷ fs) h)

pub IsChain-append :
    (fs : List VotingKeyFile) (z : VotingKeyFile)
    → IsChain fs
    → last_end fs < z.start_epoch
    → z.start_epoch ≤ z.end_epoch
    → IsChain (fs ++ z ∷ [])
IsChain-append [] z h l k = k
IsChain-append (f ∷ []) z h l k = (h, l, k)
IsChain-append (f ∷ g ∷ fs) z (a, b, h) l k = (a, b, IsChain-append (g ∷ fs) z h l k)

pub last_end-append :
    (fs : List VotingKeyFile) (z : VotingKeyFile) → last_end (fs ++ z ∷ []) ≡ z.end_epoch
last_end-append [] z = refl
last_end-append (f ∷ []) z = refl
last_end-append (f ∷ g ∷ fs) z = last_end-append (g ∷ fs) z

module _ {κ} (P : VotingKeyFile → Type κ) where
  All-of-insert :
      (x : VotingKeyFile) (ys : List VotingKeyFile) → All P (insert_by_start x ys) → P x × All P ys
  unfolding insert_by_start
  All-of-insert x [] h = h
  All-of-insert x (y ∷ ys) h = elim (Bool-cases (leb x.start_epoch y.start_epoch)) [
    | inl e ↦ rw e at h
    | inr e ↦
        let k : P y × All P (insert_by_start x ys) = rw e at h in
        let (px, pys) = All-of-insert x ys k.1 in (px, (k.0, pys))
  ]

  pub All-of-sort : (xs : List VotingKeyFile) → All P (sort_by_start xs) → All P xs
  unfolding sort_by_start
  All-of-sort [] h = tt
  All-of-sort (x ∷ xs) h =
      let (p, k) = All-of-insert x (sort_by_start xs) h in (p, All-of-sort xs k)

insert-append :
    (x : VotingKeyFile) (ys : List VotingKeyFile) (z : VotingKeyFile)
    → x.start_epoch ≤ z.start_epoch
    → insert_by_start x (ys ++ z ∷ []) ≡ insert_by_start x ys ++ z ∷ []
unfolding insert_by_start
insert-append x [] z h = rw (le→leb _ _ h)
insert-append x (y ∷ ys) z h = elim (Bool-cases (leb x.start_epoch y.start_epoch)) [
  | inl e ↦ rw e
  | inr e ↦ rw e (ap (λ t. y ∷ t) (insert-append x ys z h))
]

pub sort-append :
    (xs : List VotingKeyFile) (z : VotingKeyFile)
    → All (λ f. f.start_epoch ≤ z.start_epoch) xs
    → sort_by_start (xs ++ z ∷ []) ≡ sort_by_start xs ++ z ∷ []
unfolding sort_by_start insert_by_start
sort-append [] z h = refl
sort-append (x ∷ xs) z (h, hs) =
    ap (insert_by_start x) (sort-append xs z hs) ∙ insert-append x (sort_by_start xs) z h

-- A name that no entry has.
abbrev pub IsFresh : Text → Folder → Type 0
IsFresh name folder = All (λ e. text_eq e.name name ≡ false) folder

pub write_file-fresh :
    (folder : Folder) (name : Text) (content : Bytes)
    → IsFresh name folder
    → write_file folder name content
      ≡ folder ++ record { name = name; is_file = true; content = content } ∷ []
unfolding write_file
write_file-fresh [] name content h = refl
write_file-fresh (e ∷ es) name content (h, hs) = rw h (rw (write_file-fresh es name content hs))

append-regroup :
    (m : Result VotingKeyAccount) (r : Result (List VotingKeyFile)) (name : Text)
    (z : VotingKeyFile)
    → (m >>= λ a. (r >>= λ fs. returned (fs ++ z ∷ [])) >>= λ fs.
        returned (record { account = a; filename = name } ∷ fs))
      ≡ ((m >>= λ a. r >>= λ fs. returned (record { account = a; filename = name } ∷ fs)) >>= λ fs.
          returned (fs ++ z ∷ []))
append-regroup (returned a) (returned fs) name z = refl
append-regroup (returned a) (raised e) name z = refl
append-regroup (raised e) r name z = refl

module _ (c : Convert) where
  pub read_voting_files-append :
      (folder : Folder) (e : DirEntry) (account : VotingKeyAccount)
      → is_voting_file e ≡ true
      → read_voting_file c e.content ≡ returned account
      → read_voting_files c (folder ++ e ∷ []) ≡ (
          read_voting_files c folder >>= λ files.
          returned (files ++ record { account = account; filename = e.name } ∷ []))
  unfolding read_voting_files
  read_voting_files-append [] e account i r = rw i (rw r)
  read_voting_files-append (d ∷ folder) e account i r =
      rw (read_voting_files-append folder e account i r) (elim (Bool-cases (is_voting_file d)) [
        | inl v ↦ rw v (
            append-regroup (read_voting_file c d.content) (read_voting_files c folder) d.name
              (record { account = account; filename = e.name }))
        | inr v ↦ rw v
      ])
