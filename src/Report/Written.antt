-- ===== src/Report/Written.antt =====
-- A run leaves the reports of every node in the folder.
use mathlib.Core.List.{Memᴰ, append_cancel_right}
use mathlib.Core.List.Memᴰ.{not-nil, cases_cons}
use symbol_bootstrap.Base.{
  ◌<◌, ◌==◌, ◌≡◌, refl, sym, ap, ◌∙◌, subst, inl, inr, Bool, true, false, ◌&&◌, ◌||◌, Option, some,
  List, [], ◌∷◌, ◌++◌, any, length, length-append, Bool-cases, arith,
}
use symbol_bootstrap.Base.Text.{Text, text, text_eq, text_eq-eq, text_eq_refl}
use symbol_bootstrap.Base.Result.{returned}
use symbol_bootstrap.Yaml.{Files, write_text_file}
use symbol_bootstrap.Report.{Descriptor}
use symbol_bootstrap.Report.Files.{
  ReportNode, NodeResources, create_reports_per_node, rst_report, csv_report, rst_path, csv_path,
  write_node, write_nodes, empty_folder, run,
}

abbrev pub is_named : Text → ReportNode → Bool
is_named name n = text_eq n.name name

-- No two nodes have one name.
abbrev pub AreNamed : List ReportNode → Type 0
AreNamed [] = Unit
AreNamed (n ∷ ns) = (any (is_named n.name) ns ≡ false) × AreNamed ns

text_eq-append : (s t u : Text) → text_eq s t ≡ false → text_eq (s ++ u) (t ++ u) ≡ false
text_eq-append s t u h = elim (Bool-cases (text_eq (s ++ u) (t ++ u))) [
  | inl e ↦
      let same = append_cancel_right s t u (text_eq-eq (s ++ u) (t ++ u) e) in
      let equal : text_eq s t ≡ true = subst (λ w. text_eq s w ≡ true) same (text_eq_refl s) in cc
  | inr e ↦ e
]

text_eq-length : (s t : Text) → length s < length t → text_eq s t ≡ false
text_eq-length s t h = elim (Bool-cases (text_eq s t)) [
  | inl e ↦ (let same = ap length (text_eq-eq s t e) in ground arith)
  | inr e ↦ e
]

text_eq_sym : (s t : Text) → text_eq s t ≡ text_eq t s
unfolding text_eq
text_eq_sym [] [] = refl
text_eq_sym [] (d ∷ t) = refl
text_eq_sym (c ∷ s) [] = refl
text_eq_sym (c ∷ s) (d ∷ t) = ground (arith, text_eq_sym s t)

and_false : (b : Bool) → (b && false) ≡ false
and_false true = refl
and_false false = refl

module _ (u v : Text) (h : length u ≡ length v) (k : text_eq u v ≡ false) where
  text_eq-suffixes : (s t : Text) → text_eq (s ++ u) (t ++ v) ≡ false
  unfolding text_eq
  text_eq-suffixes [] [] = k
  text_eq-suffixes (c ∷ s) (d ∷ t) = rw (text_eq-suffixes s t) (and_false (c == d))
  text_eq-suffixes [] (d ∷ t) = text_eq-length u (d ∷ t ++ v) (omega (arith, h, length-append t v))
  text_eq-suffixes (c ∷ s) [] =
      text_eq_sym (c ∷ s ++ u) v
      ∙ text_eq-length v (c ∷ s ++ u) (omega (arith, h, length-append s u))

-- The paths of two nodes, and the two paths of a node.
rst_path-csv_path : (m n : Text) → text_eq (rst_path m) (csv_path n) ≡ false
unfolding text_eq
rst_path-csv_path m n = text_eq-suffixes (text "-config.rst") (text "-config.csv") refl refl m n

csv_path-rst_path : (m n : Text) → text_eq (csv_path m) (rst_path n) ≡ false
csv_path-rst_path m n = text_eq_sym (csv_path m) (rst_path n) ∙ rst_path-csv_path n m

-- A node writes this path.
abbrev writes : Text → ReportNode → Bool
writes q n = text_eq (rst_path n.name) q || text_eq (csv_path n.name) q

or-false : (a b : Bool) → (a || b) ≡ false → (a ≡ false) × (b ≡ false)
or-false true b h = cc
or-false false b h = (refl, h)

writes-rst_path :
    (name : Text) (ns : List ReportNode)
    → any (is_named name) ns ≡ false
    → any (writes (rst_path name)) ns ≡ false
writes-rst_path name [] h = refl
writes-rst_path name (n ∷ ns) h =
    let (e, k) = or-false (is_named name n) (any (is_named name) ns) h in
    rw
      (
        text_eq-append n.name name (text "-config.rst") e,
        csv_path-rst_path n.name name,
        writes-rst_path name ns k,
      )
      refl

writes-csv_path :
    (name : Text) (ns : List ReportNode)
    → any (is_named name) ns ≡ false
    → any (writes (csv_path name)) ns ≡ false
writes-csv_path name [] h = refl
writes-csv_path name (n ∷ ns) h =
    let (e, k) = or-false (is_named name n) (any (is_named name) ns) h in
    rw
      (
        text_eq-append n.name name (text "-config.csv") e,
        rst_path-csv_path n.name name,
        writes-csv_path name ns k,
      )
      refl

module _ (version : Text) where
  write_node-other :
      (n : ReportNode) (files : Files) (q : Text)
      → writes q n ≡ false
      → write_node version n files q ≡ files q
  unfolding write_text_file
  write_node-other n files q h =
      let (e, k) = or-false (text_eq (rst_path n.name) q) (text_eq (csv_path n.name) q) h in
      rw (e, k) refl

  write_nodes-other :
      (ns : List ReportNode) (files : Files) (q : Text)
      → any (writes q) ns ≡ false
      → write_nodes version ns files q ≡ files q
  unfolding write_nodes
  write_nodes-other [] files q h = refl
  write_nodes-other (n ∷ ns) files q h =
      let (e, k) = or-false (writes q n) (any (writes q) ns) h in
      write_nodes-other ns (write_node version n files) q k ∙ write_node-other n files q e

  -- The files of one node.
  abbrev HasReports : ReportNode → Files → Type 0
  HasReports n files =
      (files (rst_path n.name) ≡ some (rst_report version n))
      × (files (csv_path n.name) ≡ some (csv_report version n))

  write_node-HasReports :
      (n : ReportNode) (files : Files) → HasReports n (write_node version n files)
  unfolding write_text_file
  write_node-HasReports n files = (
    rw (csv_path-rst_path n.name n.name, text_eq_refl (rst_path n.name)) refl,
    rw (text_eq_refl (csv_path n.name)) refl,
  )

  write_nodes-HasReports :
      (ns : List ReportNode) (files : Files) (n : ReportNode)
      → AreNamed ns
      → Memᴰ n ns
      → HasReports n (write_nodes version ns files)
  unfolding write_nodes
  write_nodes-HasReports [] files n named m = elim (not-nil m) [ ]
  write_nodes-HasReports (x ∷ ns) files n (other, named) m = elim (cases_cons m) [
    | inl e ↦
        let (rst, csv) = write_node-HasReports x files in
        subst (λ r. HasReports r (write_nodes version ns (write_node version x files))) (sym e)
          (
            write_nodes-other ns _ _ (writes-rst_path x.name ns other) ∙ rst,
            write_nodes-other ns _ _ (writes-csv_path x.name ns other) ∙ csv,
          )
    | inr later ↦ write_nodes-HasReports ns (write_node version x files) n named later
  ]

-- When the reports are made and no two nodes have one name, the run leaves in the folder, for every
-- node, its own rst report and its own csv report under its name.
pub run-HasReports :
    (descriptions : Text → Option Descriptor) (version : Text) (nodes : List NodeResources)
    (reports : List ReportNode) (n : ReportNode)
    → create_reports_per_node descriptions nodes ≡ returned reports
    → AreNamed reports
    → Memᴰ n reports
    → ((run descriptions version nodes).0 (rst_path n.name) ≡ some (rst_report version n))
      × ((run descriptions version nodes).0 (csv_path n.name) ≡ some (csv_report version n))
unfolding run
run-HasReports descriptions version nodes reports n h named m =
    rw h (write_nodes-HasReports version reports empty_folder n named m)
