-- ===== src/Report/Blocks.antt =====
-- A properties file as the templates of the nodes print it, and its report.
use symbol_bootstrap.Base.{
  ℕ, ◌≡◌, Bool, true, false, not, ◌&&◌, ◌||◌, Option, none, some, List, [], ◌∷◌, ◌++◌, map, All,
  ◌==◌, if◌then◌else◌,
}
use symbol_bootstrap.Base.Text.{Text, text, is_empty}
use symbol_bootstrap.Base.Strings.{is_space, trim_end, trim}
use symbol_bootstrap.Report.{ReportLine, ReportSection, Descriptor, is_header_unit, is_separator}

-- A line under a header: a remark, or a property with its value.
pub data Item : Type 0 where
  remark : Text → Item
  setting : Text → Text → Item

pub record Block : Type 0 where
  pub title : Text
  pub items : List Item

abbrev pub item_line : Item → Text
item_line (remark t) = b'#' ∷ t
item_line (setting name value) = name ++ (text " = " ++ value)

-- The items, a line each, before the rest of the file.
unfoldable pub print_items : List Item → Text → Text
print_items [] rest = rest
print_items (i ∷ is) rest = item_line i ++ 10 ∷ print_items is rest

abbrev pub title_line : Text → Text
title_line title = b'[' ∷ title ++ b']' ∷ []

-- An empty line follows a block.
unfoldable pub print_blocks : List Block → Text
print_blocks [] = []
print_blocks (b ∷ bs) = title_line b.title ++ 10 ∷ print_items b.items (10 ∷ print_blocks bs)

-- A unit that ends no line.
abbrev pub inside_line : ℕ → Bool
inside_line c = not (c == 10 || c == 13)

-- A name has no white space around it, starts no remark and holds no opening bracket.
abbrev pub name_start : Text → Bool
name_start [] = false
name_start (c ∷ s) = not (is_space c || c == b'#')

-- A header holds the units that its pattern takes, but no line break.
abbrev pub in_title : ℕ → Bool
in_title c = is_header_unit c && inside_line c

-- A unit that ends no line for a regular expression.
abbrev pub in_segment : ℕ → Bool
in_segment c = inside_line c && not (is_separator c)

abbrev pub in_name : ℕ → Bool
in_name c = in_segment c && not (c == b'[')

abbrev pub in_value : ℕ → Bool
in_value c = in_name c && not (c == b'=')

abbrev pub Passes : (ℕ → Bool) → Text → Type 0
Passes p t = All (λ c. p c ≡ true) t

abbrev pub IsItem : Item → Type 0
IsItem (remark t) = Passes inside_line t
IsItem (setting name value) =
    (name_start name ≡ true)
    × (trim_end name ≡ name)
    × Passes in_name name
    × (trim value ≡ value)
    × Passes in_value value

abbrev pub IsBlock : Block → Type 0
IsBlock b = (is_empty b.title ≡ false) × Passes in_title b.title × All IsItem b.items

-- What the report is to say of a property, by its description.
abbrev pub described_by : Text → Text → Option Descriptor → ReportLine
described_by name value none = record {
  property = name;
  line_type = [];
  description = [];
  hidden = false;
  value = value;
}
described_by name value (some d) = record {
  property = name;
  line_type = d.descriptor_type;
  description = d.descriptor_description;
  hidden = d.is_hidden;
  value = if d.is_hidden then map (λ c. b'*') value else value;
}

module _ (descriptions : Text → Option Descriptor) where
  abbrev pub expected_line : Text → Text → ReportLine
  expected_line name value = described_by name value (descriptions name)

  unfoldable pub expected_lines : List Item → List ReportLine
  expected_lines [] = []
  expected_lines (remark t ∷ is) = expected_lines is
  expected_lines (setting name value ∷ is) = expected_line name value ∷ expected_lines is

  abbrev pub expected_section : Block → ReportSection
  expected_section b = record { header = b.title; lines = expected_lines b.items }
