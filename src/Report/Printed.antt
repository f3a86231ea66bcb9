-- ===== src/Report/Printed.antt =====
-- The report of a properties file that the templates of a node print.
use symbol_bootstrap.Base.{
  ◌≡◌, refl, sym, ap, ◌∙◌, true, false, not, ◌||◌, Option, List, [], ◌∷◌, ◌++◌, map, All,
  All-append, append_assoc, append-nil, ◌==◌,
}
use symbol_bootstrap.Base.Text.{Text, is_empty}
use symbol_bootstrap.Base.Strings.{is_space}
use symbol_bootstrap.Base.Result.{Result, returned}
use symbol_bootstrap.Report.{
  is_separator, ReportLine, ReportSection, Descriptor, split_lines, relevant, starts_comment,
  is_header_unit, report_step, report_loop, create_report_from_file,
}
use symbol_bootstrap.Report.Spaces.{relevant-empty, joined, relevant_lines, relevant_lines-trim}
use symbol_bootstrap.Report.Blocks.{
  Item, remark, setting, Block, item_line, print_items, title_line, print_blocks, inside_line,
  in_segment, in_title, name_start, in_name, Passes, IsItem, IsBlock, expected_line, expected_lines,
  expected_section,
}
use symbol_bootstrap.Report.Reading.{both, neither, relevant_lines-append}
use symbol_bootstrap.Report.Lines.{
  relevant-keep, relevant-remark, trim-title, header_of-title, trim-setting,
}
use symbol_bootstrap.Report.Settings.{in_value-in_name, section_of, report_step-setting}

in_name-inside_line : (t : Text) → Passes in_name t → Passes inside_line t
in_name-inside_line [] h = tt
in_name-inside_line (c ∷ t) (h, hs) =
    let (e, _) = both (in_segment c) (not (c == b'[')) h in
    let (k, _) = both (inside_line c) (not (is_separator c)) e in (k, in_name-inside_line t hs)

IsItem-inside_line : (i : Item) → IsItem i → Passes inside_line (item_line i)
IsItem-inside_line (remark t) h = (refl, h)
IsItem-inside_line (setting name value) (_, _, h, _, k) =
    in_name-inside_line _
      (All-append (λ c. in_name c ≡ true) name _ h (refl, (refl, (refl, in_value-in_name value k))))

name_start-kept :
    (name s : Text)
    → name_start name ≡ true
    → (is_empty (name ++ s) || starts_comment (name ++ s)) ≡ false
name_start-kept [] s h = cc
name_start-kept (c ∷ name) s h = let (_, e) = neither (is_space c) (c == b'#') h in e

title-inside_line : (t : Text) → Passes in_title t → Passes inside_line t
title-inside_line [] h = tt
title-inside_line (c ∷ t) (h, hs) =
    let (_, e) = both (is_header_unit c) (inside_line c) h in (e, title-inside_line t hs)

IsBlock-inside_line : (b : Block) → IsBlock b → Passes inside_line (title_line b.title)
IsBlock-inside_line b (_, h, _) = (
  refl,
  All-append (λ c. inside_line c ≡ true) b.title _ (title-inside_line b.title h) (refl, tt),
)

module _ (descriptions : Text → Option Descriptor) where
  abbrev read : Text → List ReportSection → Result (List ReportSection)
  read s sections = report_loop descriptions (relevant_lines s) sections

  read_remark :
      (t rest : Text) (sections : List ReportSection)
      → IsItem (remark t)
      → read (item_line (remark t) ++ 10 ∷ rest) sections ≡ read rest sections
  read_remark t rest sections h =
      ap (λ ls. report_loop descriptions ls sections)
        (relevant_lines-append (b'#' ∷ t) rest (refl, h)
          ∙ relevant-remark t (joined (split_lines rest)))

  read_setting :
      (name value rest : Text) (done : List ReportSection) (title : Text) (ls : List ReportLine)
      → IsItem (setting name value)
      → read (item_line (setting name value) ++ 10 ∷ rest) (done ++ section_of title ls ∷ [])
        ≡ read rest
            (done ++ section_of title (ls ++ expected_line descriptions name value ∷ []) ∷ [])
  unfolding report_loop
  read_setting name value rest done title ls h =
      let (start, _, _, _, _) = h in
      let line = item_line (setting name value) in
      let kept =
        relevant_lines-append line rest (IsItem-inside_line (setting name value) h)
        ∙ relevant-keep line (joined (split_lines rest)) _ (trim-setting name value start)
            (name_start-kept name _ start) in
      ap (λ texts. report_loop descriptions texts (done ++ section_of title ls ∷ [])) kept
      ∙ rw (report_step-setting descriptions name value done title ls h) refl

  read_items :
      (is : List Item) (rest : Text) (done : List ReportSection) (title : Text)
      (ls : List ReportLine)
      → All IsItem is
      → read (print_items is rest) (done ++ section_of title ls ∷ [])
        ≡ read rest (done ++ section_of title (ls ++ expected_lines descriptions is) ∷ [])
  unfolding print_items expected_lines
  read_items [] rest done title ls h = rw append-nil refl
  read_items (remark t ∷ is) rest done title ls (h, hs) =
      read_remark t (print_items is rest) _ h ∙ read_items is rest done title ls hs
  read_items (setting name value ∷ is) rest done title ls (h, hs) =
      let l = expected_line descriptions name value in
      read_setting name value (print_items is rest) done title ls h
      ∙ read_items is rest done title (ls ++ l ∷ []) hs
      ∙ ap (λ all. read rest (done ++ section_of title all ∷ []))
          (append_assoc ls (l ∷ []) (expected_lines descriptions is))

  read_empty :
      (rest : Text) (sections : List ReportSection) → read (10 ∷ rest) sections ≡ read rest sections
  read_empty rest sections =
      ap (λ ls. report_loop descriptions ls sections)
        (relevant_lines-append [] rest tt ∙ relevant-empty (joined (split_lines rest)))

  read_title :
      (b : Block) (rest : Text) (done : List ReportSection)
      → IsBlock b
      → read (title_line b.title ++ 10 ∷ rest) done ≡ read rest (done ++ section_of b.title [] ∷ [])
  unfolding report_loop
  read_title b rest done (h, k, items) =
      let kept =
        relevant_lines-append (title_line b.title) rest (IsBlock-inside_line b (h, k, items))
        ∙ relevant-keep (title_line b.title) (joined (split_lines rest)) _ (trim-title b.title)
            refl in
      ap (λ texts. report_loop descriptions texts done) kept
      ∙ rw (report_step, header_of-title b.title h k) refl

  read_blocks :
      (bs : List Block) (done : List ReportSection)
      → All IsBlock bs
      → read (print_blocks bs) done ≡ returned (done ++ map (expected_section descriptions) bs)
  unfolding print_blocks report_loop relevant split_lines
  read_blocks [] done h =
      ap (λ ls. report_loop descriptions ls done) (relevant-empty [])
      ∙ ap returned (sym (append-nil done))
  read_blocks (b ∷ bs) done (h, hs) =
      let (_, _, items) = h in
      let s = expected_section descriptions b in
      read_title b (print_items b.items (10 ∷ print_blocks bs)) done h
      ∙ read_items b.items (10 ∷ print_blocks bs) done b.title [] items
      ∙ read_empty (print_blocks bs) (done ++ s ∷ [])
      ∙ read_blocks bs (done ++ s ∷ []) hs
      ∙ ap returned (append_assoc done (s ∷ []) (map (expected_section descriptions) bs))

  -- A properties file is printed from blocks, each a header in brackets, remarks and properties
  -- `name = value` on lines of their own, and an empty line. No line break is inside a line, and no
  -- U+2028 or U+2029 inside the line of a property; a header is made of one or more of the units that
  -- the function takes for one; a name is not empty, begins with no `#`, and has no white space at
  -- its ends and no opening bracket; a value has no white space at its ends, no opening bracket and
  -- no equals sign. Then the report has a section for each block and in it a line for each property,
  -- in their order, with the type and the description of the property, which are empty without a
  -- description, and with its value, of which every unit is an asterisk if the description hides it.
  pub create_report_from_file-print_blocks :
      (blocks : List Block)
      → All IsBlock blocks
      → create_report_from_file descriptions (print_blocks blocks)
        ≡ returned (map (expected_section descriptions) blocks)
  unfolding create_report_from_file
  create_report_from_file-print_blocks blocks h =
      ap (λ ls. report_loop descriptions ls []) (relevant_lines-trim (print_blocks blocks))
      ∙ read_blocks blocks [] h
