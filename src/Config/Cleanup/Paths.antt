-- ===== src/Config/Cleanup/Paths.antt =====
-- The cleaning of a folder whose path has no `.`, `..` or empty part, as `path.join` of posix joins
-- such paths.
use symbol_bootstrap.Base.{
  ℕ, Bool, true, false, not, ◌||◌, some, List, [], ◌∷◌, ◌++◌, ◌≡◌, refl, sym, ap, ap₂, ◌∙◌, any,
  all, ◌==◌, ==_refl, arith, Bool-cases, inl, inr, if◌then◌else◌,
}
use symbol_bootstrap.Base.Text.{Text, text, text_eq, text_eq-eq, is_empty}
use symbol_bootstrap.Base.Strings.{split, split_step}
use symbol_bootstrap.Config.Cleanup.{Entries, unless_empty, clean_up_gateway}
use symbol_bootstrap.Config.Cleanup.Kept.{
  only_named, AreNames, PathLaws, clean_up_gateway-only_named,
}

-- A part of a path that names something in a folder.
abbrev pub is_segment : Text → Bool
is_segment s = not (is_empty s || (text_eq s (text ".") || text_eq s (text "..")))

abbrev joined : Text × List Text → List Text
joined (part, parts) = part ∷ parts

abbrev pub segments : Text → List Text
segments t = joined (split b'/' t)

abbrev pub has_slash : Text → Bool
has_slash t = any (λ u. u == b'/') t

abbrev pub IsClean : Text → Type 0
IsClean t = all is_segment (segments t) ≡ true

-- A path without the slash of the root.
abbrev pub relative : Text → Text
relative [] = []
relative (c ∷ s) = if c == b'/' then s else c ∷ s

-- The path of a folder or a file, relative or absolute.
abbrev pub IsPath : Text → Type 0
IsPath t = IsClean (relative t)

abbrev pub IsName : Text → Type 0
IsName t = (has_slash t ≡ false) × (is_segment t ≡ true)

abbrev IsLong : Text → Type 0
IsLong t = (has_slash (relative t) ≡ true) × IsPath t

-- `path.join` of two such paths puts one slash between them.
abbrev pub JoinsPaths : (Text → Text → Text) → Type 0
JoinsPaths join = (p q : Text) → IsPath p → IsPath q → join p q ≡ p ++ b'/' ∷ relative q

split_slash : (x : Text × List Text) → joined (split_step b'/' b'/' x) ≡ [] ∷ joined x
split_slash (part, parts) = refl

split_step-append :
    (c : ℕ) (x y : Text × List Text) (zs : List Text)
    → joined x ≡ joined y ++ zs
    → joined (split_step b'/' c x) ≡ joined (split_step b'/' c y) ++ zs
split_step-append c (a, xs) (b, ys) zs h = elim (Bool-cases (c == b'/')) [
  | inl t ↦ rw t (ap (λ ts. [] ∷ ts) h)
  | inr f ↦ rw f (
      let first : a ≡ b = cc in
      let others : xs ≡ ys ++ zs = cc in ap₂ (λ t ts. (c ∷ t) ∷ ts) first others)
]

segments-append : (p q : Text) → segments (p ++ b'/' ∷ q) ≡ segments p ++ segments q
unfolding split
segments-append [] q = split_slash (split b'/' q)
segments-append (c ∷ p) q =
    split_step-append c (split b'/' (p ++ b'/' ∷ q)) (split b'/' p) (segments q)
      (segments-append p q)

all-append :
    (xs ys : List Text)
    → all is_segment xs ≡ true
    → all is_segment ys ≡ true
    → all is_segment (xs ++ ys) ≡ true
all-append [] ys h k = k
all-append (x ∷ xs) ys h k = elim (Bool-cases (is_segment x)) [
  | inl t ↦ rw t (all-append xs ys (rw t at h) k)
  | inr f ↦ ground (arith, rw f at h)
]

IsClean-append : (p q : Text) → IsClean p → IsClean q → IsClean (p ++ b'/' ∷ q)
IsClean-append p q h k =
    ap (λ ts. all is_segment ts) (segments-append p q) ∙ all-append (segments p) (segments q) h k

split-name : (n : Text) → has_slash n ≡ false → split b'/' n ≡ (n, [])
unfolding split
split-name [] h = refl
split-name (c ∷ n) h = elim (Bool-cases (c == b'/')) [
  | inl t ↦ ground (arith, rw t at h)
  | inr f ↦ rw (split-name n (rw f at h)) (rw f refl)
]

name-IsClean : (n : Text) → IsName n → IsClean n
name-IsClean n (h, k) = rw (split-name n h) (rw k refl)

relative-name : (n : Text) → IsName n → relative n ≡ n
relative-name [] h = refl
relative-name (c ∷ n) (h, k) = elim (Bool-cases (c == b'/')) [
  | inl t ↦ ground (arith, rw t at h)
  | inr f ↦ rw f refl
]

relative-append : (p q : Text) → IsPath p → relative (p ++ b'/' ∷ q) ≡ relative p ++ b'/' ∷ q
unfolding split
relative-append [] q h = ground (arith, h)
relative-append (c ∷ p) q h = elim (Bool-cases (c == b'/')) [
  | inl t ↦ rw t refl
  | inr f ↦ rw f refl
]

has_slash-append : (p q : Text) → has_slash (p ++ b'/' ∷ q) ≡ true
has_slash-append [] q = refl
has_slash-append (c ∷ p) q = rw (has_slash-append p q) (or_true (c == b'/'))
  where
    or_true : (b : Bool) → (b || true) ≡ true
    or_true true = refl
    or_true false = refl

text_eq-slash : (p n m : Text) → text_eq (p ++ b'/' ∷ n) (p ++ b'/' ∷ m) ≡ text_eq n m
unfolding text_eq
text_eq-slash [] n m = refl
text_eq-slash (c ∷ p) n m = rw (==_refl c) (text_eq-slash p n m)

name-ne-long : (n l : Text) → has_slash n ≡ false → has_slash l ≡ true → text_eq n l ≡ false
name-ne-long n l name long = elim (Bool-cases (text_eq n l)) [
  | inl t ↦
      let same = text_eq-eq n l t in
      let bad : false ≡ true = sym name ∙ rw same long in ground (arith, bad)
  | inr f ↦ f
]

module _ (join : Text → Text → Text) (joins : JoinsPaths join) where
  name-IsPath : (n : Text) → IsName n → IsPath n
  name-IsPath n name = rw (relative-name n name) (name-IsClean n name)

  join_of-name : (p n : Text) → IsPath p → IsName n → join p n ≡ p ++ b'/' ∷ n
  join_of-name p n path name =
      joins p n path (name-IsPath n name) ∙ ap (λ r. p ++ b'/' ∷ r) (relative-name n name)

  appended-IsLong : (p q : Text) → IsPath p → IsClean q → IsLong (p ++ b'/' ∷ q)
  appended-IsLong p q path clean =
      rw (relative-append p q path)
        (has_slash-append (relative p) q, IsClean-append (relative p) q path clean)

  laws : PathLaws join IsPath IsName IsLong
  laws = record {
    join-IsPath = λ p n path name.
        rw (join_of-name p n path name)
          (let (_, clean) = appended-IsLong p n path (name-IsClean n name) in clean);
    join_name = λ p n m path name name'.
        rw (join_of-name p n path name, join_of-name p m path name') (text_eq-slash p n m);
    join-IsLong = λ p n path name.
        rw (join_of-name p n path name) (appended-IsLong p n path (name-IsClean n name));
    join_long-IsLong = λ p l path (slash, long).
        rw (joins p l path long) (appended-IsLong p (relative l) path long);
    join_other = λ p n l path name (slash, long).
        let (plain, _) = name in
        rw (join_of-name p n path name, joins p l path long)
          (text_eq-slash p n (relative l) ∙ name-ne-long n (relative l) plain slash);
  }

  -- Of the folder of a gateway, the cleaning leaves the files of its SSL key and its SSL certificate,
  -- as they are, and nothing else, at any depth; where there is neither, the folder is gone. The path
  -- of the folder is relative or absolute and has no part that is empty, `.` or `..`, the names in
  -- it and of the two files have no slash and are none of these, and `join` puts one slash
  -- between two such paths.
  pub clean_up_gateway-keeps :
      (path key certificate : Text) (es : Entries)
      → IsPath path
      → IsName key
      → IsName certificate
      → AreNames IsName es
      → clean_up_gateway join path key certificate (some es)
        ≡ unless_empty (only_named (λ n. text_eq n key || text_eq n certificate) es)
  clean_up_gateway-keeps path key certificate es p k c names =
      clean_up_gateway-only_named join IsPath IsName IsLong laws path key certificate p k c es names
