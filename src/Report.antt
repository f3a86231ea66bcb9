-- ===== src/Report.antt =====
-- src/service/ReportService.ts: what the report says of a properties file.
--
-- A line holds no line break, so that the dot of a regular expression is any unit but U+2028 and
-- U+2029, which do not reach a value.
pub mod Hidden
mod Spaces
pub mod Blocks
mod Reading
mod Lines
mod Settings
pub mod Files
pub mod Alike
pub mod Written
pub mod Printed
mod Examples
use symbol_bootstrap.Base.{
  ℕ, Bool, true, false, not, ◌&&◌, ◌||◌, Option, none, some, List, [], ◌∷◌, ◌++◌, map, leb, ◌==◌,
  or_first, if◌then◌else◌,
}
use symbol_bootstrap.Base.Text.{Text, text, is_empty}
use symbol_bootstrap.Base.Strings.{trim, is_space}
use symbol_bootstrap.Base.Result.{Result, returned, raised, error, ◌>>=◌}

pub record ReportLine : Type 0 where
  pub property : Text
  pub line_type : Text
  pub description : Text
  pub hidden : Bool
  pub value : Text

pub record ReportSection : Type 0 where
  pub header : Text
  pub lines : List ReportLine

-- An entry of descriptions.yml; a missing text is empty.
pub record Descriptor : Type 0 where
  pub is_hidden : Bool
  pub descriptor_type : Text
  pub descriptor_description : Text

-- The parts of a text between its line breaks.
abbrev pub line_step : ℕ → Text × List Text → Text × List Text
line_step c (part, parts) = if c == 10 || c == 13 then ([], part ∷ parts) else (c ∷ part, parts)

unfoldable pub split_lines : Text → Text × List Text
split_lines [] = ([], [])
split_lines (c ∷ s) = line_step c (split_lines s)

abbrev starts_comment : Text → Bool
starts_comment [] = false
starts_comment (c ∷ s) = c == b'#'

-- The trimmed lines that are neither empty nor comments: the white space that the split takes away
-- around a line break is trimmed anyway.
unfoldable pub relevant : List Text → List Text
relevant [] = []
relevant (l ∷ ls) =
    if is_empty (trim l) || starts_comment (trim l) then relevant ls else trim l ∷ relevant ls

-- `[\w\s\.:]`
abbrev pub is_header_unit : ℕ → Bool
is_header_unit c =
    leb b'a' c && leb c b'z'
    || leb b'A' c && leb c b'Z'
    || leb b'0' c && leb c b'9'
    || c == b'_'
    || is_space c
    || c == b'.'
    || c == b':'

-- The units up to a closing bracket, if all of them may stand in a header.
abbrev header_step : ℕ → Option Text → Option Text
header_step c none = none
header_step c (some name) = some (c ∷ name)

unfoldable pub bracketed : Text → Option Text
bracketed [] = none
bracketed (c ∷ s) =
    let rest = bracketed s in
    if c == b']' then some [] else if is_header_unit c then header_step c rest else none

abbrev non_empty : Option Text → Option Text
non_empty none = none
non_empty (some []) = none
non_empty (some (c ∷ s)) = some (c ∷ s)

abbrev or_later : Option Text → Option Text → Option Text
or_later none later = later
or_later (some name) later = some name

-- `/\[([\w\s\.:]+)]/`: the first header in the line.
unfoldable pub header_of : Text → Option Text
header_of [] = none
header_of (c ∷ s) =
    let later = header_of s in if c == b'[' then or_later (non_empty (bracketed s)) later else later

abbrev property_step : ℕ → Text → Option (Text × Text) → Option (Text × Text)
property_step c s none = if c == b'=' then some ([], s) else none
property_step c s (some (name, value)) = some (c ∷ name, value)

-- The first group of `/(.*)=(.*)/` is greedy, so that the last equals sign divides the text.
unfoldable pub segment_property : Text → Option (Text × Text)
segment_property [] = none
segment_property (c ∷ s) = property_step c s (segment_property s)

-- The other line terminators, which the dot of a regular expression does not match either.
abbrev pub is_separator : ℕ → Bool
is_separator c = c == 0x2028 || c == 0x2029

abbrev pub segment_step : ℕ → Text × List Text → Text × List Text
segment_step c (part, parts) = if is_separator c then ([], part ∷ parts) else (c ∷ part, parts)

unfoldable pub split_segments : Text → Text × List Text
split_segments [] = ([], [])
split_segments (c ∷ s) = segment_step c (split_segments s)

unfoldable pub first_property : List Text → Option (Text × Text)
first_property [] = none
first_property (t ∷ ts) = or_first (segment_property t) (first_property ts)

-- `/(.*)=(.*)/`: the first part between separators that holds an equals sign.
unfoldable pub property_of : Text → Option (Text × Text)
property_of s = let (part, parts) = split_segments s in first_property (part ∷ parts)

-- `value.replace(/./g, '*')`
unfoldable pub masked : Text → Text
masked [] = []
masked (c ∷ s) = b'*' ∷ masked s

module _ (descriptions : Text → Option Descriptor) where
  abbrev pub described_line : Text → Text → Option Descriptor → ReportLine
  described_line name value none = record {
    property = name;
    line_type = [];
    description = [];
    hidden = false;
    value = value;
  }
  described_line name value (some d) = record {
    property = name;
    line_type = d.descriptor_type;
    description = d.descriptor_description;
    hidden = d.is_hidden;
    value = if d.is_hidden then masked value else value;
  }

  abbrev pub report_line : Text → Text → ReportLine
  report_line name value = described_line (trim name) (trim value) (descriptions (trim name))

  -- The line goes to the last section.
  unfoldable pub add_line : ReportLine → List ReportSection → Result (List ReportSection)
  add_line l [] = raised (error "No section could be found!")
  add_line l (s ∷ []) = returned (record s { lines = s.lines ++ l ∷ [] } ∷ [])
  add_line l (s ∷ t ∷ sections) = do rest ← add_line l (t ∷ sections); returned (s ∷ rest)

  -- A line without a name before the equals sign is left out.
  abbrev pub add_property : Option (Text × Text) → List ReportSection → Result (List ReportSection)
  add_property none sections = returned sections
  add_property (some ([], value)) sections = returned sections
  add_property (some (c ∷ name, value)) sections = add_line (report_line (c ∷ name) value) sections

  abbrev pub report_step : Text → List ReportSection → Result (List ReportSection)
  report_step l sections = elim (header_of l) [
    | some name ↦ returned (sections ++ record { header = name; lines = [] } ∷ [])
    | none ↦ add_property (property_of l) sections
  ]

  unfoldable pub report_loop : List Text → List ReportSection → Result (List ReportSection)
  report_loop [] sections = returned sections
  report_loop (l ∷ ls) sections = do next ← report_step l sections; report_loop ls next

  -- `createReportFromFile`
  unfoldable pub create_report_from_file : Text → Result (List ReportSection)
  create_report_from_file content =
      let (line, others) = split_lines (trim content) in report_loop (relevant (line ∷ others)) []
