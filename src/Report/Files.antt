-- ===== src/Report/Files.antt =====
-- src/service/ReportService.ts: the reports of the nodes, and the files of the folder `reports`.
--
-- The folder is deleted before the reports are made, so that what it held is no argument. A path is
-- the part below the folder. The debug message on missing descriptions is left out.
mod Examples
use symbol_bootstrap.Base.{
  ℕ, Bool, true, false, not, ◌&&◌, ◌||◌, Option, none, some, List, [], ◌∷◌, ◌++◌, any, ◌==◌,
  if◌then◌else◌,
}
use symbol_bootstrap.Base.Text.{Text, text, is_empty, contains}
use symbol_bootstrap.Base.Strings.{trim}
use symbol_bootstrap.Base.Result.{Result, returned, raised, ◌>>=◌}
use symbol_bootstrap.Yaml.{Files, write_text_file}
use symbol_bootstrap.Report.{ReportLine, ReportSection, Descriptor, create_report_from_file}

pub record ReportFile : Type 0 where
  pub file_name : Text
  pub sections : List ReportSection

pub record ReportNode : Type 0 where
  pub name : Text
  pub files : List ReportFile

-- The folder `server-config/resources` of a node: the names and the contents.
pub record NodeResources : Type 0 where
  pub node_name : Text
  pub resources : List (Text × Text)

module _ (descriptions : Text → Option Descriptor) where
  unfoldable pub report_files : List (Text × Text) → Result (List ReportFile)
  report_files [] = returned []
  report_files ((name, content) ∷ rest) =
      if contains name (text ".properties")
      then (do
        sections ← create_report_from_file descriptions content
        others ← report_files rest
        returned (record { file_name = name; sections = sections } ∷ others))
      else report_files rest

  unfoldable pub create_reports_per_node : List NodeResources → Result (List ReportNode)
  create_reports_per_node [] = returned []
  create_reports_per_node (n ∷ ns) = do
    files ← report_files n.resources
    others ← create_reports_per_node ns
    returned (record { name = n.node_name; files = files } ∷ others)

-- `params.version || presetData.reportBootstrapVersion || Constants.VERSION`
abbrev pub get_version : Text → Text → Text → Text
get_version version preset_version default_version =
    if is_empty version
    then if is_empty preset_version then default_version else preset_version
    else version

-- `l.description || l.type`
abbrev is_described : ReportLine → Bool
is_described l = not (is_empty l.description && is_empty l.line_type)

unfoldable pub line_text : Bool → ReportLine → Text
line_text true l =
    trim
      (l.property ++ text "; " ++ l.value ++ text "; " ++ l.line_type ++ text "; " ++ l.description)
    ++ text "\n"
line_text false l = trim (l.property ++ text "; " ++ l.value) ++ text "\n"

unfoldable pub line_texts : Bool → List ReportLine → Text
line_texts described [] = []
line_texts described (l ∷ ls) = line_text described l ++ line_texts described ls

-- `join`
unfoldable pub join_by : Text → List Text → Text
join_by separator [] = []
join_by separator (t ∷ []) = t
join_by separator (t ∷ u ∷ ts) = t ++ separator ++ join_by separator (u ∷ ts)

unfoldable pub csv_sections : List ReportSection → List Text
csv_sections [] = []
csv_sections (s ∷ sections) =
    (s.header ++ text "\n" ++ line_texts (any is_described s.lines) s.lines) ∷ csv_sections sections

unfoldable pub csv_files : List ReportFile → List Text
csv_files [] = []
csv_files (f ∷ files) =
    (f.file_name ++ text "\n" ++ trim (join_by (text "\n") (csv_sections f.sections)))
    ∷ csv_files files

unfoldable pub csv_report : Text → ReportNode → Text
csv_report version n =
    text "symbol-bootstrap-version; "
    ++ version
    ++ text "\n\n"
    ++ join_by (text "\n\n\n") (csv_files n.files)

unfoldable pub rst_sections : List ReportSection → Text
rst_sections [] = []
rst_sections (s ∷ sections) =
    let described = any is_described s.lines in
    text "**"
    ++ s.header
    ++ (if described then text "**; ; ;\n" else text "**;\n")
    ++ line_texts described s.lines
    ++ rst_sections sections

-- `replace(/./g, '=')` on a file's name, which holds no line break.
unfoldable pub underline : Text → Text
underline [] = []
underline (c ∷ s) = b'=' ∷ underline s

abbrev is_terminator : ℕ → Bool
is_terminator c = c == 10 || c == 13 || c == 0x2028 || c == 0x2029

-- `replace(/^/gm, '    ')`: after each line terminator, and, by the caller, at the start.
unfoldable pub indent_rest : Text → Text
indent_rest [] = []
indent_rest (c ∷ s) = (if is_terminator c then c ∷ text "    " else c ∷ []) ++ indent_rest s

abbrev indent : Text → Text
indent s = text "    " ++ indent_rest s

abbrev has_description : ReportSection → Bool
has_description s = any is_described s.lines

abbrev rst_header : Bool → Text
rst_header true = text "\"Property\", \"Value\", \"Type\", \"Description\""
rst_header false = text "\"Property\", \"Value\""

unfoldable pub rst_files : List ReportFile → List Text
rst_files [] = []
rst_files (f ∷ files) =
    (text "\n"
      ++ f.file_name
      ++ text "\n"
      ++ underline f.file_name
      ++ text "\n.. csv-table::\n    :header: "
      ++ rst_header (any has_description f.sections)
      ++ text "\n    :delim: ;\n\n"
      ++ indent (trim (rst_sections f.sections)))
    ∷ rst_files files

unfoldable pub rst_report : Text → ReportNode → Text
rst_report version n =
    text "Symbol Bootstrap Version: "
    ++ version
    ++ text "\n"
    ++ join_by (text "\n") (rst_files n.files)

abbrev pub rst_path : Text → Text
rst_path name = name ++ text "-config.rst"

abbrev pub csv_path : Text → Text
csv_path name = name ++ text "-config.csv"

-- The writes of one node, and of all of them.
abbrev pub write_node : Text → ReportNode → Files → Files
write_node version n files =
    write_text_file (write_text_file files (rst_path n.name) (rst_report version n))
      (csv_path n.name) (csv_report version n)

unfoldable pub write_nodes : Text → List ReportNode → Files → Files
write_nodes version [] files = files
write_nodes version (n ∷ ns) files = write_nodes version ns (write_node version n files)

unfoldable pub report_paths : List ReportNode → List Text
report_paths [] = []
report_paths (n ∷ ns) = rst_path n.name ∷ csv_path n.name ∷ report_paths ns

abbrev pub empty_folder : Files
empty_folder = λ path. none

module _ (descriptions : Text → Option Descriptor) (version : Text) where
  abbrev written : Result (List ReportNode) → Files × Result (List Text)
  written (raised e) = (empty_folder, raised e)
  written (returned nodes) = (write_nodes version nodes empty_folder, returned (report_paths nodes))

  -- The folder after the run, and what it returns: an exception leaves the folder empty.
  unfoldable pub run : List NodeResources → Files × Result (List Text)
  run nodes = written (create_reports_per_node descriptions nodes)
