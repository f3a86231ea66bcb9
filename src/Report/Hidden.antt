-- ===== src/Report/Hidden.antt =====
-- Hidden values do not reach the report.
use symbol_bootstrap.Base.{
  ◌≡◌, ◌⊎◌, refl, sym, ◌∙◌, ap, subst, Bool, false, Option, none, some, List, [], ◌∷◌, All,
  All-append, Bool-cases, Option-cases, inl, inr,
}
use symbol_bootstrap.Base.Text.{Text}
use symbol_bootstrap.Base.Strings.{trim}
use symbol_bootstrap.Base.Result.{returned, >>=-eq-returned}
use symbol_bootstrap.Report.{
  ReportLine, ReportSection, Descriptor, masked, header_of, property_of, described_line,
  report_line, add_line, add_property, report_step, report_loop, create_report_from_file,
}

-- Only asterisks.
abbrev pub IsMasked : Text → Type 0
IsMasked value = All (λ c. c ≡ b'*') value

module _ (descriptions : Text → Option Descriptor) where
  abbrev pub hides : Option Descriptor → Bool
  hides none = false
  hides (some d) = d.is_hidden

  -- The line is hidden where its property is described as hidden, and then it is masked.
  abbrev pub IsSafe : ReportLine → Type 0
  IsSafe l = (l.hidden ≡ hides (descriptions l.property)) × ((l.hidden ≡ false) ⊎ IsMasked l.value)

  abbrev pub AllSafe : List ReportSection → Type 0
  AllSafe sections = All (λ s. All IsSafe s.lines) sections

  IsMasked-masked : (value : Text) → IsMasked (masked value)
  unfolding masked
  IsMasked-masked [] = tt
  IsMasked-masked (c ∷ s) = (refl, IsMasked-masked s)

  described_line-hidden :
      (name value : Text) (o : Option Descriptor)
      → ((described_line descriptions name value o).property ≡ name)
        × ((described_line descriptions name value o).hidden ≡ hides o)
        × (((described_line descriptions name value o).hidden ≡ false)
            ⊎ IsMasked (described_line descriptions name value o).value)
  described_line-hidden name value none = (refl, refl, inl refl)
  described_line-hidden name value (some d) = elim (Bool-cases d.is_hidden) [
    | inl t ↦ (refl, refl, rw t (inr (IsMasked-masked value)))
    | inr t ↦ (refl, refl, inl t)
  ]

  report_line-IsSafe : (name value : Text) → IsSafe (report_line descriptions name value)
  report_line-IsSafe name value =
      let (named, hidden, safe) =
        described_line-hidden (trim name) (trim value) (descriptions (trim name)) in
      (hidden ∙ ap (λ n. hides (descriptions n)) (sym named), safe)

  returned_sections : (a b : List ReportSection) → returned a ≡ returned b → AllSafe a → AllSafe b
  returned_sections a b h = subst AllSafe (same a b h)
    where
      same : (x y : List ReportSection) → returned x ≡ returned y → x ≡ y
      same x y e = cc

  add_line-AllSafe :
      (l : ReportLine) (sections result : List ReportSection)
      → IsSafe l
      → AllSafe sections
      → add_line descriptions l sections ≡ returned result
      → AllSafe result
  unfolding add_line
  add_line-AllSafe l [] result safe all h = cc
  add_line-AllSafe l (s ∷ []) result safe (own, _) h =
      returned_sections _ result h (All-append IsSafe s.lines (l ∷ []) own (safe, tt), tt)
  add_line-AllSafe l (s ∷ t ∷ sections) result safe (own, all) h =
      let (rest, added, e) = >>=-eq-returned (add_line descriptions l (t ∷ sections)) _ h in
      returned_sections _ result e (own, add_line-AllSafe l (t ∷ sections) rest safe all added)

  add_property-AllSafe :
      (found : Option (Text × Text)) (sections result : List ReportSection)
      → AllSafe sections
      → add_property descriptions found sections ≡ returned result
      → AllSafe result
  add_property-AllSafe none sections result all h = returned_sections sections result h all
  add_property-AllSafe (some ([], value)) sections result all h =
      returned_sections sections result h all
  add_property-AllSafe (some (c ∷ name, value)) sections result all h =
      add_line-AllSafe _ sections result (report_line-IsSafe (c ∷ name) value) all h

  report_step-AllSafe :
      (line : Text) (sections result : List ReportSection)
      → AllSafe sections
      → report_step descriptions line sections ≡ returned result
      → AllSafe result
  report_step-AllSafe line sections result all h = elim (Option-cases (header_of line)) [
    | inl n ↦ add_property-AllSafe (property_of line) sections result all (rw (report_step, n) at h)
    | inr (name, e) ↦
        returned_sections _ result (rw (report_step, e) at h)
          (All-append (λ s. All IsSafe s.lines) sections _ all (tt, tt))
  ]

  report_loop-AllSafe :
      (ls : List Text) (sections result : List ReportSection)
      → AllSafe sections
      → report_loop descriptions ls sections ≡ returned result
      → AllSafe result
  unfolding report_loop
  report_loop-AllSafe [] sections result all h = returned_sections sections result h all
  report_loop-AllSafe (l ∷ ls) sections result all h =
      let (next, stepped, rest) = >>=-eq-returned (report_step descriptions l sections) _ h in
      report_loop-AllSafe ls next result (report_step-AllSafe l sections next all stepped) rest

  -- Whatever a properties file holds, a line of its report is hidden exactly where its property is
  -- described as hidden, and the value of a hidden line is asterisks only.
  pub create_report_from_file-AllSafe :
      (content : Text) (sections : List ReportSection)
      → create_report_from_file descriptions content ≡ returned sections
      → AllSafe sections
  unfolding create_report_from_file
  create_report_from_file-AllSafe content sections h = report_loop-AllSafe _ [] sections tt h
