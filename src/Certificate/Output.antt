-- ===== src/Certificate/Output.antt =====
-- What src/service/CertificateService.ts reads out of the texts that openssl prints.
use symbol_bootstrap.Base.{
  ℕ, suc, ◌+◌, ◌-◌, max, min, Option, none, some, List, [], ◌∷◌, ◌++◌, length, take, drop, ◌==◌,
  if◌then◌else◌,
}
use symbol_bootstrap.Base.Text.{Text, text, starts_with, is_empty, to_upper_case}
use symbol_bootstrap.Base.Strings.{trim, split}
use symbol_bootstrap.Base.Result.{Result, returned, raised, error, ◌>>=◌}

pub record CertificatePair : Type 0 where
  pub private_key : Text
  pub public_key : Text

unfoldable pub join_trimmed : List Text → Text
join_trimmed [] = []
join_trimmed (t ∷ ts) = trim t ++ join_trimmed ts

unfoldable pub extract_key : Text → Result Text
extract_key subtext =
    let (part, parts) = split b':' (trim subtext) in
    let key = join_trimmed (part ∷ parts) in
    if length key == 64
    then returned (to_upper_case key)
    else raised (error "SSL Certificate key cannot be loaded from the openssl script.")

-- `indexOf`, from the start: `none` is -1.
unfoldable pub index_of : Text → Text → Option ℕ
index_of [] p = if starts_with [] p then some 0 else none
index_of (c ∷ s) p =
    let later = index_of s p in
    if starts_with (c ∷ s) p then some 0 else elim later [ none ↦ none | some i ↦ some (suc i) ]

-- `indexOf` from an index on.
abbrev pub index_of_from : Text → Text → ℕ → Option ℕ
index_of_from s p from = elim (index_of (drop from s) p) [ none ↦ none | some i ↦ some (from + i) ]

-- `locations`: all indexes, from the one of the first unit on.
unfoldable pub locations_from : ℕ → Text → Text → List ℕ
locations_from i [] p = []
locations_from i (c ∷ s) p =
    let later = locations_from (suc i) s p in if starts_with (c ∷ s) p then i ∷ later else later

-- `substring` with an end: a negative bound is 0, and the bounds are swapped when the first is
-- greater.
abbrev pub substring_between : Text → ℕ → Option ℕ → Text
substring_between s a none = take a s
substring_between s a (some b) = take (max a b - min a b) (drop (min a b) s)

-- `stdout.indexOf(middle, index) + middle.length`
abbrev pub behind_middle : Option ℕ → ℕ
behind_middle none = 3
behind_middle (some i) = i + 4

unfoldable pub certificate_at : Text → ℕ → Result CertificatePair
certificate_at stdout index = do
  private_key ←
      extract_key (substring_between stdout (index + 5) (index_of_from stdout (text "pub:") index))
  public_key ← extract_key (
      substring_between stdout (behind_middle (index_of_from stdout (text "pub:") index))
        (index_of_from stdout (text "Certificate") index))
  returned (record { private_key = private_key; public_key = public_key })

unfoldable pub certificates_at : Text → List ℕ → Result (List CertificatePair)
certificates_at stdout [] = returned []
certificates_at stdout (i ∷ indexes) = do
  pair ← certificate_at stdout i
  pairs ← certificates_at stdout indexes
  returned (pair ∷ pairs)

unfoldable pub get_certificates : Text → Result (List CertificatePair)
get_certificates stdout = certificates_at stdout (locations_from 0 stdout (text "priv:"))

-- The rest of the line, when the line ends.
unfoldable pub line_of : Text → Option Text
line_of [] = none
line_of (c ∷ s) =
    let later = line_of s in
    if c == 10 then some [] else elim later [ none ↦ none | some l ↦ some (c ∷ l) ]

-- The first group of `notAfter\=(.*)\n`, when it is not empty. Lines end with a line feed.
unfoldable pub expiration_date : Text → Option Text
expiration_date [] = none
expiration_date (c ∷ s) =
    let later = expiration_date s in
    if starts_with (c ∷ s) (text "notAfter=")
    then elim (line_of (drop 9 (c ∷ s))) [
      | none ↦ later
      | some l ↦ if is_empty l then none else some l
    ]
    else later
