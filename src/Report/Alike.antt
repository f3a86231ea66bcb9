-- ===== src/Report/Alike.antt =====
-- Two sets of properties files that differ only in what a report is not to disclose, give one report.
use symbol_bootstrap.Base.{
  ℕ, ◌≡◌, refl, ap, ap₂, true, false, Option, none, some, List, [], ◌∷◌, map, length, All, arith,
}
use mathlib.Core.List.{Forall₂}
use symbol_bootstrap.Base.Text.{Text, text, contains}
use symbol_bootstrap.Report.{Descriptor}
use symbol_bootstrap.Report.Hidden.{hides}
use symbol_bootstrap.Report.Blocks.{
  Item, remark, setting, Block, print_blocks, IsBlock, described_by, expected_line, expected_lines,
  expected_section,
}
use symbol_bootstrap.Report.Printed.{create_report_from_file-print_blocks}
use symbol_bootstrap.Report.Files.{NodeResources, report_files, create_reports_per_node, run}

module _ (descriptions : Text → Option Descriptor) where
  -- Remarks may differ, and hidden values of one length.
  pub data AlikeItem : Item → Item → Type 0 where
    same : {i : Item} → AlikeItem i i
    remarks : {s t : Text} → AlikeItem (remark s) (remark t)
    hidden_values :
        {name v w : Text}
        → hides descriptions (descriptions name) ≡ true
        → length v ≡ length w
        → AlikeItem (setting name v) (setting name w)

  abbrev pub AlikeBlock : Block → Block → Type 0
  AlikeBlock b c = (b.title ≡ c.title) × Forall₂ AlikeItem b.items c.items

  -- A file that is no properties file may hold anything.
  pub data AlikeFile : Text × Text → Text × Text → Type 0 where
    unread :
        {name s t : Text}
        → contains name (text ".properties") ≡ false
        → AlikeFile (name, s) (name, t)
    printed :
        {name : Text} {bs cs : List Block}
        → All IsBlock bs
        → All IsBlock cs
        → Forall₂ AlikeBlock bs cs
        → AlikeFile (name, print_blocks bs) (name, print_blocks cs)

  abbrev pub AlikeNode : NodeResources → NodeResources → Type 0
  AlikeNode n m = (n.node_name ≡ m.node_name) × Forall₂ AlikeFile n.resources m.resources

  asterisks-length :
      (v w : Text) → length v ≡ length w → map {B = ℕ} (λ c. b'*') v ≡ map (λ c. b'*') w
  asterisks-length [] [] h = refl
  asterisks-length (c ∷ v) (d ∷ w) h = ap (λ s. b'*' ∷ s) (asterisks-length v w (omega (arith, h)))
  asterisks-length [] (d ∷ w) h = ground arith
  asterisks-length (c ∷ v) [] h = ground arith

  described_by-hidden :
      (name v w : Text) (o : Option Descriptor)
      → hides descriptions o ≡ true
      → length v ≡ length w
      → described_by name v o ≡ described_by name w o
  described_by-hidden name v w none h k = cc
  described_by-hidden name v w (some d) h k = rw (h, asterisks-length v w k) refl

  expected_lines-alike :
      (is js : List Item)
      → Forall₂ AlikeItem is js
      → expected_lines descriptions is ≡ expected_lines descriptions js
  unfolding expected_lines
  expected_lines-alike is js Forall₂.nil = refl
  expected_lines-alike (remark s ∷ is) (j ∷ js) (Forall₂.cons same h) = expected_lines-alike is js h
  expected_lines-alike (setting name v ∷ is) (j ∷ js) (Forall₂.cons same h) =
      ap (λ ls. expected_line descriptions name v ∷ ls) (expected_lines-alike is js h)
  expected_lines-alike (i ∷ is) (j ∷ js) (Forall₂.cons remarks h) = expected_lines-alike is js h
  expected_lines-alike (i ∷ is) (j ∷ js) (Forall₂.cons (hidden_values {name} {v} {w} e k) h) =
      ap₂ (λ l ls. l ∷ ls) (described_by-hidden name v w (descriptions name) e k)
        (expected_lines-alike is js h)

  expected_sections-alike :
      (bs cs : List Block)
      → Forall₂ AlikeBlock bs cs
      → map (expected_section descriptions) bs ≡ map (expected_section descriptions) cs
  expected_sections-alike bs cs Forall₂.nil = refl
  expected_sections-alike (b ∷ bs) (c ∷ cs) (Forall₂.cons (e, k) h) =
      ap₂ (λ s ss. s ∷ ss) (rw (e, expected_lines-alike b.items c.items k) refl)
        (expected_sections-alike bs cs h)

  report_files-alike :
      (fs gs : List (Text × Text))
      → Forall₂ AlikeFile fs gs
      → report_files descriptions fs ≡ report_files descriptions gs
  unfolding report_files
  report_files-alike fs gs Forall₂.nil = refl
  report_files-alike (f ∷ fs) (g ∷ gs) (Forall₂.cons (unread e) h) =
      rw e (report_files-alike fs gs h)
  report_files-alike (f ∷ fs) (g ∷ gs) (Forall₂.cons (printed {bs = bs} {cs} p q k) h) =
      rw
        (
          create_report_from_file-print_blocks descriptions bs p,
          create_report_from_file-print_blocks descriptions cs q,
          expected_sections-alike bs cs k,
          report_files-alike fs gs h,
        )
        refl

  create_reports_per_node-alike :
      (ns ms : List NodeResources)
      → Forall₂ AlikeNode ns ms
      → create_reports_per_node descriptions ns ≡ create_reports_per_node descriptions ms
  unfolding create_reports_per_node
  create_reports_per_node-alike ns ms Forall₂.nil = refl
  create_reports_per_node-alike (n ∷ ns) (m ∷ ms) (Forall₂.cons (e, k) h) =
      rw (e, report_files-alike n.resources m.resources k, create_reports_per_node-alike ns ms h)
        refl

  -- The reports disclose of a hidden value only its length: two sets of node folders, whose properties
  -- files are printed from blocks that differ only in remarks and in hidden values of one length, and
  -- whose other files may hold anything, give the same files and the same result of a run. The
  -- headers, names and values of the blocks are such as the function reads back (`IsBlock`): without
  -- line breaks, opening brackets, U+2028 and U+2029 in names and values, and without equals signs
  -- in values.
  pub run-alike :
      (version : Text) (ns ms : List NodeResources)
      → Forall₂ AlikeNode ns ms
      → run descriptions version ns ≡ run descriptions version ms
  unfolding run
  run-alike version ns ms h = rw (create_reports_per_node-alike ns ms h) refl
