-- ===== src/Report/Settings.antt =====
-- The step of the report at a printed property.
use symbol_bootstrap.Base.{
  ◌≡◌, refl, sym, ap, ◌∙◌, true, not, Option, none, some, List, [], ◌∷◌, ◌++◌, All-append,
  append_assoc, ◌==◌,
}
use symbol_bootstrap.Base.Text.{Text}
use symbol_bootstrap.Base.Result.{returned}
use symbol_bootstrap.Report.{
  ReportLine, ReportSection, Descriptor, header_of, segment_property, is_separator, split_segments,
  first_property, property_of, described_line, report_line, add_line, add_property, report_step,
}
use symbol_bootstrap.Report.Blocks.{
  setting, name_start, inside_line, in_segment, in_name, in_value, Passes, IsItem, described_by,
  expected_line,
}
use symbol_bootstrap.Report.Reading.{
  both, Passes-trim_end, header_of-none, if_not, segment_property-none, segment_property-append,
}
use symbol_bootstrap.Report.Lines.{rest_of, trim-rest_of, trim-name, masked-eq-map}

pub in_value-in_name : (t : Text) → Passes in_value t → Passes in_name t
in_value-in_name [] h = tt
in_value-in_name (c ∷ t) (h, hs) =
    let (e, _) = both (in_name c) (not (c == b'=')) h in (e, in_value-in_name t hs)

abbrev pub section_of : Text → List ReportLine → ReportSection
section_of title ls = record { header = title; lines = ls }

split_segments-name : (t : Text) → Passes in_name t → split_segments t ≡ (t, [])
unfolding split_segments
split_segments-name [] h = refl
split_segments-name (c ∷ t) (h, hs) =
    let (e, _) = both (in_segment c) (not (c == b'[')) h in
    let (_, k) = both (inside_line c) (not (is_separator c)) e in
    rw (split_segments-name t hs) (if_not _ _ (is_separator c) k)

property_of-name :
    (t : Text) (found : Text × Text)
    → Passes in_name t
    → segment_property t ≡ some found
    → property_of t ≡ some found
unfolding property_of first_property
property_of-name t found h k = rw (split_segments-name t h) (rw k refl)

module _ (descriptions : Text → Option Descriptor) where
  described_line-expected :
      (name value : Text) (o : Option Descriptor)
      → described_line descriptions name value o ≡ described_by name value o
  described_line-expected name value none = refl
  described_line-expected name value (some d) = rw (masked-eq-map value) refl

  report_line-expected :
      (name value : Text)
      → IsItem (setting name value)
      → report_line descriptions (name ++ b' ' ∷ []) (rest_of value)
        ≡ expected_line descriptions name value
  report_line-expected name value (start, ends, _, settled, _) =
      rw (trim-name name start ends, trim-rest_of value settled)
        (described_line-expected name value (descriptions name))

  add_line-last :
      (l : ReportLine) (done : List ReportSection) (title : Text) (ls : List ReportLine)
      → add_line descriptions l (done ++ section_of title ls ∷ [])
        ≡ returned (done ++ section_of title (ls ++ l ∷ []) ∷ [])
  unfolding add_line
  add_line-last l [] title ls = refl
  add_line-last l (d ∷ []) title ls = refl
  add_line-last l (d ∷ e ∷ done) title ls = rw (add_line-last l (e ∷ done) title ls) refl

  setting-in_name :
      (name value : Text)
      → IsItem (setting name value)
      → Passes in_name (name ++ (b' ' ∷ b'=' ∷ rest_of value))
  setting-in_name name value (_, _, h, _, k) =
      All-append (λ c. in_name c ≡ true) name _ h
        (refl, (refl, Passes-trim_end in_name (b' ' ∷ value) (refl, in_value-in_name value k)))

  property_of-setting :
      (name value : Text)
      → IsItem (setting name value)
      → property_of (name ++ (b' ' ∷ b'=' ∷ rest_of value))
        ≡ some (name ++ b' ' ∷ [], rest_of value)
  property_of-setting name value h =
      let (_, _, _, _, k) = h in
      property_of-name _ _ (setting-in_name name value h) (
        ap segment_property (sym (append_assoc name (b' ' ∷ []) (b'=' ∷ rest_of value)))
        ∙ segment_property-append (name ++ b' ' ∷ []) (rest_of value) (
            segment_property-none (rest_of value)
              (Passes-trim_end in_value (b' ' ∷ value) (refl, k))))

  header_of-setting :
      (name value : Text)
      → IsItem (setting name value)
      → header_of (name ++ (b' ' ∷ b'=' ∷ rest_of value)) ≡ none
  header_of-setting name value h = header_of-none _ (setting-in_name name value h)

  add_property-named :
      (name value : Text) (sections : List ReportSection)
      → name_start name ≡ true
      → add_property descriptions (some (name ++ b' ' ∷ [], value)) sections
        ≡ add_line descriptions (report_line descriptions (name ++ b' ' ∷ []) value) sections
  add_property-named [] value sections h = cc
  add_property-named (c ∷ name) value sections h = refl

  pub report_step-setting :
      (name value : Text) (done : List ReportSection) (title : Text) (ls : List ReportLine)
      → IsItem (setting name value)
      → report_step descriptions
          (name ++ (b' ' ∷ b'=' ∷ rest_of value))
          (done ++ section_of title ls ∷ [])
        ≡ returned
            (done ++ section_of title (ls ++ expected_line descriptions name value ∷ []) ∷ [])
  report_step-setting name value done title ls h =
      let (start, _, _, _, _) = h in
      rw (report_step, header_of-setting name value h)
        (rw (property_of-setting name value h) (
          add_property-named name (rest_of value) _ start
          ∙ add_line-last _ done title ls
          ∙ rw (report_line-expected name value h) refl))
