-- ===== src/Report/Files/Examples.antt =====
-- The reports of a node with a properties file and another file.
use mathlib.Core.List.{Memᴰ, Forall₂}
use symbol_bootstrap.Base.{
  ◌≡◌, refl, true, false, Option, none, some, List, [], ◌∷◌, ◌++◌, All, if◌then◌else◌,
}
use symbol_bootstrap.Base.Text.{Text, text, text_eq, contains, starts_with}
use symbol_bootstrap.Base.Strings.{is_space, trim, trim_start, trim_end}
use symbol_bootstrap.Base.Result.{returned, raised, error}
use symbol_bootstrap.Report.{
  ReportLine, Descriptor, split_lines, relevant, bracketed, header_of, segment_property,
  split_segments, first_property, property_of, masked, add_line, report_loop,
  create_report_from_file,
}
use symbol_bootstrap.Report.Blocks.{
  setting, Block, print_items, print_blocks, in_value, Passes, IsBlock,
}
use symbol_bootstrap.Report.Files.{
  ReportNode, NodeResources, report_files, create_reports_per_node, get_version, line_text,
  line_texts, join_by, csv_sections, csv_files, csv_report, rst_sections, underline, indent_rest,
  rst_files, rst_report, rst_path, csv_path, empty_folder, run,
}
use symbol_bootstrap.Report.Alike.{AlikeNode, unread, printed, same, hidden_values, run-alike}
use symbol_bootstrap.Report.Written.{run-HasReports}

abbrev descriptions : Text → Option Descriptor
descriptions name =
    if text_eq name (text "key")
    then some
        (record { is_hidden = true; descriptor_type = text "T"; descriptor_description = text "D" })
    else none

-- A file with a port, and a key of three units.
abbrev blocks : Text → List Block
blocks key =
    record {
      title = text "a";
      items = setting (text "port") (text "1") ∷ setting (text "key") key ∷ [];
    }
    ∷ []

abbrev node : Text → Text → NodeResources
node key log = record {
  node_name = text "n";
  resources = (text "x.properties", print_blocks (blocks key)) ∷ (text "log", log) ∷ [];
}

abbrev visible : ReportLine
visible = record {
  property = text "port";
  line_type = [];
  description = [];
  hidden = false;
  value = text "1";
}

abbrev hidden_key : ReportLine
hidden_key = record {
  property = text "key";
  line_type = text "T";
  description = text "D";
  hidden = true;
  value = text "***";
}

abbrev report : ReportNode
report = record {
  name = text "n";
  files =
      record {
        file_name = text "x.properties";
        sections = record { header = text "a"; lines = visible ∷ hidden_key ∷ [] } ∷ [];
      }
      ∷ [];
}

reports : create_reports_per_node descriptions (node (text "abc") [] ∷ []) ≡ returned (report ∷ [])
unfolding create_reports_per_node report_files print_blocks print_items contains starts_with
    create_report_from_file report_loop add_line masked property_of first_property split_segments
    segment_property header_of bracketed relevant split_lines is_space trim_start trim_end text_eq
reports = refl

csv :
    csv_report (text "1.0") report
    ≡ text "symbol-bootstrap-version; 1.0\n\nx.properties\na\nport; 1; ;\nkey; ***; T; D"
unfolding csv_report csv_files csv_sections join_by line_texts line_text is_space trim_start
    trim_end
csv = refl

rst :
    rst_report (text "1.0") report
    ≡ text "Symbol Bootstrap Version: 1.0\n\nx.properties\n============\n.. csv-table::\n"
      ++ text "    :header: \"Property\", \"Value\", \"Type\", \"Description\"\n    :delim: ;\n\n"
      ++ text "    **a**; ; ;\n    port; 1; ;\n    key; ***; T; D"
unfolding rst_report rst_files rst_sections underline indent_rest join_by line_texts line_text
    is_space trim_start trim_end
rst = refl

default_version : get_version [] [] (text "2") ≡ text "2"
default_version = refl

no_header :
    run descriptions []
      (record { node_name = []; resources = (text ".properties", text "a=b") ∷ [] } ∷ [])
    ≡ (empty_folder, raised (error "No section could be found!"))
unfolding run create_reports_per_node report_files contains starts_with create_report_from_file
    report_loop add_line masked property_of first_property split_segments segment_property header_of
    bracketed relevant split_lines is_space trim_start trim_end text_eq
no_header = refl

blocks-AreBlocks : (key : Text) → Passes in_value key → trim key ≡ key → All IsBlock (blocks key)
unfolding is_space trim_start trim_end
blocks-AreBlocks key h k = (
  (
    refl,
    (refl, tt),
    (
      (refl, refl, (refl, (refl, (refl, (refl, tt)))), refl, (refl, tt)),
      ((refl, refl, (refl, (refl, (refl, tt))), k, h), tt),
    ),
  ),
  tt,
)

abc_trimmed : trim (text "abc") ≡ text "abc"
unfolding is_space trim_start trim_end
abc_trimmed = refl

def_trimmed : trim (text "def") ≡ text "def"
unfolding is_space trim_start trim_end
def_trimmed = refl

nodes_alike :
    Forall₂
      (AlikeNode descriptions)
      (node (text "abc") (text "u") ∷ [])
      (node (text "def") (text "v") ∷ [])
unfolding contains starts_with text_eq
nodes_alike =
    Forall₂.cons
      (
        refl,
        Forall₂.cons
            (printed (blocks-AreBlocks (text "abc") (refl, (refl, (refl, tt))) abc_trimmed)
              (blocks-AreBlocks (text "def") (refl, (refl, (refl, tt))) def_trimmed)
              (Forall₂.cons
                (refl, Forall₂.cons same (Forall₂.cons (hidden_values refl refl) Forall₂.nil))
                Forall₂.nil))
            (Forall₂.cons (unread refl) Forall₂.nil),
      )
      Forall₂.nil

run-alike_example :
    run descriptions [] (node (text "abc") (text "u") ∷ [])
    ≡ run descriptions [] (node (text "def") (text "v") ∷ [])
run-alike_example =
    run-alike descriptions [] (node (text "abc") (text "u") ∷ [])
      (node (text "def") (text "v") ∷ []) nodes_alike

run-HasReports_example :
    ((run descriptions (text "1.0") (node (text "abc") [] ∷ [])).0 (rst_path (text "n"))
      ≡ some (rst_report (text "1.0") report))
    × ((run descriptions (text "1.0") (node (text "abc") [] ∷ [])).0 (csv_path (text "n"))
        ≡ some (csv_report (text "1.0") report))
run-HasReports_example =
    run-HasReports descriptions (text "1.0") (node (text "abc") [] ∷ []) (report ∷ []) report
      reports (refl, tt) (Memᴰ.head refl)
