-- ===== src/Config/Cleanup/Examples.antt =====
-- The cleaning of a concrete folder.
use symbol_bootstrap.Base.{
  true, false, ◌||◌, none, some, [], ◌∷◌, ◌++◌, ◌≡◌, refl, arith, Bool-cases, inl, inr, all, subst,
  if◌then◌else◌,
}
use symbol_bootstrap.Base.Text.{Text, text, text_eq, text_eq-eq, is_empty}
use symbol_bootstrap.Config.Cleanup.{
  Entries, no_entries, entry, plain_file, folder, unless_empty, delete_entries, delete_folder,
  clean_up_gateway,
}
use symbol_bootstrap.Config.Cleanup.Kept.{only_named, AreNames}
use symbol_bootstrap.Config.Cleanup.Paths.{
  is_segment, segments, relative, JoinsPaths, clean_up_gateway-keeps,
}
use symbol_bootstrap.Base.Strings.{split}

-- `path.join` where neither path has `.`, `..` or an empty part but as a whole.
abbrev slash : Text → Text → Text
slash a b = if is_empty a || text_eq a (text ".") then b else a ++ b'/' ∷ relative b

slash-JoinsPaths : JoinsPaths slash
unfolding split text_eq
slash-JoinsPaths [] q h k = ground (arith, h)
slash-JoinsPaths (c ∷ p) q h k = elim (Bool-cases (text_eq (c ∷ p) (text "."))) [
  | inl t ↦
      let dot = text_eq-eq (c ∷ p) (text ".") t in
      let bad : false ≡ true = subst (λ u. all is_segment (segments (relative u)) ≡ true) dot h in
      cc
  | inr f ↦ rw f refl
]

abbrev gateway_folder : Entries
gateway_folder = entry (text "rest.json") (plain_file (text "{}")) (
    entry (text "ssl.key") (plain_file (text "K")) (
      entry (text "api-node-config")
        (folder (entry (text "ssl.key") (plain_file (text "X")) no_entries)) no_entries))

clean_up_gateway-keeps_example :
    clean_up_gateway slash
      (text "target/gateways/g")
      (text "ssl.key")
      (text "ssl.crt")
      (some gateway_folder)
    ≡ unless_empty
        (only_named (λ n. text_eq n (text "ssl.key") || text_eq n (text "ssl.crt")) gateway_folder)
unfolding AreNames split text_eq
clean_up_gateway-keeps_example =
    clean_up_gateway-keeps slash slash-JoinsPaths (text "target/gateways/g") (text "ssl.key")
      (text "ssl.crt") gateway_folder refl (refl, refl) (refl, refl)
      ((refl, refl), tt, ((refl, refl), tt, ((refl, refl), ((refl, refl), tt, tt), tt)))

kept_key :
    clean_up_gateway slash
      (text "target/gateways/g")
      (text "ssl.key")
      (text "ssl.crt")
      (some gateway_folder)
    ≡ some (folder (entry (text "ssl.key") (plain_file (text "K")) no_entries))
unfolding clean_up_gateway delete_folder delete_entries text_eq
kept_key = refl

-- A file in a subfolder is deleted although it is excluded.
deleted_below :
    delete_folder slash (text "t") (text "t/a/k" ∷ []) (
      some (
        entry (text "a") (folder (entry (text "k") (plain_file (text "K")) no_entries)) no_entries))
    ≡ none
unfolding delete_folder delete_entries text_eq
deleted_below = refl
