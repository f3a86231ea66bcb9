-- ===== src/Report/Examples.antt =====
-- A properties file with a hidden password.
use symbol_bootstrap.Base.{
  ◌≡◌, refl, Bool, true, false, Option, none, some, List, [], ◌∷◌, ◌++◌, map, all, All, ℕ,
  if◌then◌else◌,
}
use symbol_bootstrap.Base.Text.{Text, text, text_eq}
use symbol_bootstrap.Base.Strings.{is_space, trim_start, trim_end}
use symbol_bootstrap.Base.Result.{returned, raised, error}
use symbol_bootstrap.Report.{
  ReportLine, ReportSection, Descriptor, split_lines, relevant, bracketed, header_of,
  segment_property, split_segments, first_property, property_of, masked, add_line, report_loop,
  create_report_from_file,
}
use symbol_bootstrap.Report.Hidden.{AllSafe, create_report_from_file-AllSafe}
use symbol_bootstrap.Report.Reading.{both}
use symbol_bootstrap.Report.Blocks.{
  remark, setting, Block, print_items, print_blocks, inside_line, in_title, in_name, in_value,
  Passes, IsBlock, expected_section,
}
use symbol_bootstrap.Report.Printed.{create_report_from_file-print_blocks}

abbrev descriptions : Text → Option Descriptor
descriptions name =
    if text_eq name (text "secret")
    then some (record { is_hidden = true; descriptor_type = text "T"; descriptor_description = [] })
    else none

abbrev content : Text
content = text "# comment\n[a.b]\n\n port = 7900 \r\nsecret = abc\n"

abbrev line : Text → Text → Text → Bool → ReportLine
line name of_type value hidden = record {
  property = name;
  line_type = of_type;
  description = [];
  hidden = hidden;
  value = value;
}

abbrev sections : List ReportSection
sections =
    record {
      header = text "a.b";
      lines =
          line (text "port") [] (text "7900") false
          ∷ line (text "secret") (text "T") (text "***") true
          ∷ [];
    }
    ∷ []

reported : create_report_from_file descriptions content ≡ returned sections
unfolding create_report_from_file report_loop add_line masked property_of first_property
    split_segments segment_property header_of bracketed relevant split_lines is_space trim_start
    trim_end text_eq
reported = refl

-- The last equals sign divides a line, so that the name is not that of the hidden property.
shown :
    create_report_from_file descriptions (text "[a]\nsecret = abc=")
    ≡ returned
        (record { header = text "a"; lines = line (text "secret = abc") [] [] false ∷ [] } ∷ [])
unfolding create_report_from_file report_loop add_line masked property_of first_property
    split_segments segment_property header_of bracketed relevant split_lines is_space trim_start
    trim_end text_eq
shown = refl

no_section :
    create_report_from_file descriptions (text "a=b") ≡ raised (error "No section could be found!")
unfolding create_report_from_file report_loop add_line masked property_of first_property
    split_segments segment_property header_of bracketed relevant split_lines is_space trim_start
    trim_end text_eq
no_section = refl

-- The bracketed value is taken for a header.
bracketed_value :
    create_report_from_file descriptions (text "[a]\naddress = [::]\nport = 1")
    ≡ returned (
        record { header = text "a"; lines = [] }
        ∷ record { header = text "::"; lines = line (text "port") [] (text "1") false ∷ [] }
        ∷ [])
unfolding create_report_from_file report_loop add_line masked property_of first_property
    split_segments segment_property header_of bracketed relevant split_lines is_space trim_start
    trim_end text_eq
bracketed_value = refl

-- The dot of a regular expression does not match U+2028.
separated :
    create_report_from_file descriptions (text "[a]\nx" ++ 0x2028 ∷ text "secret = b")
    ≡ returned (
        record { header = text "a"; lines = line (text "secret") (text "T") (text "*") true ∷ [] }
        ∷ [])
unfolding create_report_from_file report_loop add_line masked property_of first_property
    split_segments segment_property header_of bracketed relevant split_lines is_space trim_start
    trim_end text_eq
separated = refl

create_report_from_file-AllSafe_example : AllSafe descriptions sections
create_report_from_file-AllSafe_example =
    create_report_from_file-AllSafe descriptions content sections reported

-- The units of a text pass a test that computes.
Passes-all : (p : ℕ → Bool) (t : Text) → all p t ≡ true → Passes p t
Passes-all p [] h = tt
Passes-all p (c ∷ t) h = let (e, k) = both (p c) (all p t) h in (e, Passes-all p t k)

abbrev blocks : List Block
blocks =
    record {
      title = text "node.identity";
      items =
          remark (text " the node")
          ∷ setting (text "port") (text "7900")
          ∷ setting (text "secret") (text "abc")
          ∷ [];
    }
    ∷ record { title = text "a b"; items = setting (text "k=x") [] ∷ [] }
    ∷ []

printed :
    print_blocks blocks
    ≡ text "[node.identity]\n# the node\nport = 7900\nsecret = abc\n\n[a b]\nk=x = \n\n"
unfolding print_blocks print_items
printed = refl

blocks-AreBlocks : All IsBlock blocks
unfolding is_space trim_start trim_end
blocks-AreBlocks = (
  (
    refl,
    Passes-all in_title (text "node.identity") refl,
    (
      Passes-all inside_line (text " the node") refl,
      (
        (
          refl,
          refl,
          Passes-all in_name (text "port") refl,
          refl,
          Passes-all in_value (text "7900") refl,
        ),
        (
          (
            refl,
            refl,
            Passes-all in_name (text "secret") refl,
            refl,
            Passes-all in_value (text "abc") refl,
          ),
          tt,
        ),
      ),
    ),
  ),
  (
    (
      refl,
      Passes-all in_title (text "a b") refl,
      ((refl, refl, Passes-all in_name (text "k=x") refl, refl, tt), tt),
    ),
    tt,
  ),
)

create_report_from_file-print_blocks_example :
    create_report_from_file descriptions (print_blocks blocks)
    ≡ returned (map (expected_section descriptions) blocks)
create_report_from_file-print_blocks_example =
    create_report_from_file-print_blocks descriptions blocks blocks-AreBlocks
