-- ===== src/Report/Lines.antt =====
-- A printed line, trimmed: its header, or the name and the value of its property.
use symbol_bootstrap.Base.{◌≡◌, refl, ap, ◌∙◌, true, false, ◌||◌, some, List, [], ◌∷◌, ◌++◌, map}
use symbol_bootstrap.Base.Text.{Text, text, is_empty}
use symbol_bootstrap.Base.Strings.{is_space, trim_start, trim_end, trim}
use symbol_bootstrap.Report.{relevant, starts_comment, header_of, masked}
use symbol_bootstrap.Report.Spaces.{trim-trim_end}
use symbol_bootstrap.Report.Blocks.{setting, item_line, title_line, in_title, name_start, Passes}
use symbol_bootstrap.Report.Reading.{
  trim_end-append, trim_end-blank, trim_start-name, bracketed-title,
}

pub relevant-keep :
    (l : Text) (ps : List Text) (t : Text)
    → trim l ≡ t
    → (is_empty t || starts_comment t) ≡ false
    → relevant (l ∷ ps) ≡ t ∷ relevant ps
unfolding relevant
relevant-keep l ps t h k = rw h (rw k refl)

pub relevant-remark : (t : Text) (ps : List Text) → relevant ((b'#' ∷ t) ∷ ps) ≡ relevant ps
unfolding relevant trim_start trim_end is_space
relevant-remark t ps = refl

pub trim-title : (t : Text) → trim (title_line t) ≡ title_line t
unfolding trim_start trim_end is_space
trim-title t = ap (λ u. b'[' ∷ u) (trim_end-append t (b']' ∷ []) refl)

pub header_of-title :
    (t : Text) → is_empty t ≡ false → Passes in_title t → header_of (title_line t) ≡ some t
unfolding header_of
header_of-title [] h hs = cc
header_of-title (c ∷ t) h hs = rw (bracketed-title (c ∷ t) hs) refl

-- What follows the name in the trimmed line.
abbrev pub rest_of : Text → Text
rest_of value = trim_end (b' ' ∷ value)

pub trim-setting :
    (name value : Text)
    → name_start name ≡ true
    → trim (item_line (setting name value)) ≡ name ++ (b' ' ∷ b'=' ∷ rest_of value)
unfolding trim_end is_space
trim-setting name value h =
    ap trim_end (trim_start-name name (text " = " ++ value) h)
    ∙ trim_end-append name (text " = " ++ value) refl

pub trim-rest_of : (value : Text) → trim value ≡ value → trim (rest_of value) ≡ value
unfolding trim_start is_space
trim-rest_of value h = trim-trim_end (b' ' ∷ value) ∙ h

pub trim-name :
    (name : Text) → name_start name ≡ true → trim_end name ≡ name → trim (name ++ b' ' ∷ []) ≡ name
trim-name name h k = ap trim_end (trim_start-name name (b' ' ∷ []) h) ∙ trim_end-blank name ∙ k

pub masked-eq-map : (value : Text) → masked value ≡ map (λ c. b'*') value
unfolding masked
masked-eq-map [] = refl
masked-eq-map (c ∷ s) = ap (λ u. b'*' ∷ u) (masked-eq-map s)
