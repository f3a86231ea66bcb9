-- ===== src/Compose/File/Reused.antt =====
-- When docker-compose.yml is made, and when it is used again.
use symbol_bootstrap.Base.{
  true, false, Option, none, List, [], ◌∷◌, ◌++◌, ◌≡◌, refl, ◌∙◌, arith, is_some, Bool-cases, inl,
  inr, ◌⊎◌, append_assoc,
}
use symbol_bootstrap.Base.Text.{Text, text, text_eq_refl, starts_with, starts_with-append}
use symbol_bootstrap.Base.Result.{returned, >>=-eq-returned}
use symbol_bootstrap.Value.{Value, obj, Fields}
use symbol_bootstrap.Yaml.{
  Files, no_password, write_text_file, sealed_object, write_yaml, opened_object, load_yaml,
}
use symbol_bootstrap.Yaml.RoundTrip.{load_file-write_text_file}
use symbol_bootstrap.Preset.Create.{optional}
use symbol_bootstrap.Compose.Presets.{ConfigPreset, Rest}
use symbol_bootstrap.Compose.Web.{compose_services}
use symbol_bootstrap.Compose.Prune.{prune_empty, AreFullFields, prune_empty-AreFullFields}
use symbol_bootstrap.Compose.File.{
  ComposeTools, ComposeParams, compose_file, unmerged_compose, docker_compose, delete_folder_files,
  before_compose_files, reuse, create, run_compose,
}

docker_compose-AreFullFields :
    (merge : List Fields → Fields) (user : Option Text) (rest : Rest) (preset : ConfigPreset)
    (created : Fields)
    → docker_compose merge user rest preset ≡ returned created
    → AreFullFields created
unfolding docker_compose
docker_compose-AreFullFields merge user rest preset created h =
    let (services, made, h') = >>=-eq-returned (compose_services merge user rest preset) _ h in
    let same : prune_empty (merge (unmerged_compose preset services ∷ optional preset.compose))
        ≡ created =
      ground (arith, h') in
    rw (← same)
      (prune_empty-AreFullFields
        (merge (unmerged_compose preset services ∷ optional preset.compose))).0

module _ (tools : ComposeTools) (params : ComposeParams) where
  -- The folder is deleted with the file in it.
  deleted :
      (files : Files) → delete_folder_files params.target_docker files (compose_file params) ≡ none
  unfolding delete_folder_files
  deleted files =
      let folder = params.target_docker ++ b'/' ∷ [] in
      let path : folder ++ text "docker-compose.yml" ≡ compose_file params =
        append_assoc params.target_docker (b'/' ∷ []) (text "docker-compose.yml") in
      let start : starts_with (compose_file params) folder ≡ true =
        rw (← path) (starts_with-append folder (text "docker-compose.yml")) in
      rw start refl

  create-written :
      (user : Option Text) (rest : Rest) (preset : ConfigPreset) (files after : Files) (v : Value)
      → create tools params user rest preset files ≡ returned (v, after)
      → (created : Fields) × (v ≡ obj created)
        × AreFullFields created
        × (docker_compose tools.merge user rest preset ≡ returned created)
        × (after ≡ write_text_file files (compose_file params) (tools.dump (obj created)))
  unfolding create write_yaml sealed_object
  create-written user rest preset files after v h =
      let (created, made, h') = >>=-eq-returned (docker_compose tools.merge user rest preset) _ h in
      (
        created,
        ground (arith, h'),
        docker_compose-AreFullFields tools.merge user rest preset created made,
        made,
        ground (arith, h'),
      )

  load_written :
      (files : Files) (v : Value)
      → tools.load (tools.dump v) ≡ returned v
      → reuse tools params (write_text_file files (compose_file params) (tools.dump v))
        ≡ returned (v, write_text_file files (compose_file params) (tools.dump v))
  unfolding reuse load_yaml opened_object
  load_written files v load-dump =
      rw (load_file-write_text_file files (compose_file params) (tools.dump v)) (rw load-dump refl)

  is_some-written :
      (files : Files) (t : Text)
      → is_some (write_text_file files (compose_file params) t (compose_file params)) ≡ true
  unfolding write_text_file
  is_some-written files t = rw (text_eq_refl (compose_file params)) refl

there-upgrade :
    (tools : ComposeTools) (params : ComposeParams) (files : Files)
    → is_some (before_compose_files params files (compose_file params)) ≡ true
    → params.upgrade ≡ false
there-upgrade tools params files there = elim (Bool-cases params.upgrade) [
  | inl t ↦ ground (arith, deleted tools params files, rw t at there)
  | inr f ↦ f
]

abbrev pub without_upgrade : ComposeParams → ComposeParams
without_upgrade params = record { target_docker = params.target_docker; upgrade = false }

-- js-yaml loads what it dumped of the docker-compose of a preset, which has nothing undefined in it.
abbrev pub LoadsDumped : ComposeTools → Option Text → Rest → ConfigPreset → Type 0
LoadsDumped tools user rest preset =
    (created : Fields)
    → docker_compose tools.merge user rest preset ≡ returned created
    → AreFullFields created
    → tools.load (tools.dump (obj created)) ≡ returned (obj created)

module _ (tools : ComposeTools) (params : ComposeParams) where
  -- A run on files in which docker-compose.yml can be loaded loads it.
  reuse-run :
      (user : Option Text) (rest : Rest) (preset : ConfigPreset) (files : Files)
      → is_some (files (compose_file params)) ≡ true
      → run_compose tools (without_upgrade params) user rest preset files ≡ reuse tools params files
  unfolding run_compose reuse
  reuse-run user rest preset files h = rw h refl

  after_reuse :
      (user later : Option Text) (rest rest' : Rest) (preset preset' : ConfigPreset)
      (before after : Files) (v : Value)
      → is_some (before (compose_file params)) ≡ true
      → reuse tools params before ≡ returned (v, after)
      → run_compose tools (without_upgrade params) later rest' preset' after ≡ returned (v, after)
  unfolding reuse
  after_reuse user later rest rest' preset preset' before after v there h =
      let (w, loaded, h') =
        >>=-eq-returned (load_yaml tools.unseal tools.load before (compose_file params) no_password)
          _ h in
      let same : before ≡ after = ground (arith, h') in
      rw (← same) (reuse-run later rest' preset' before there ∙ h ∙ rw same refl)

  after_create :
      (user later : Option Text) (rest rest' : Rest) (preset preset' : ConfigPreset)
      (before after : Files) (v : Value)
      → LoadsDumped tools user rest preset
      → create tools params user rest preset before ≡ returned (v, after)
      → run_compose tools (without_upgrade params) later rest' preset' after ≡ returned (v, after)
  after_create user later rest rest' preset preset' before after v load-dump h =
      let (created, same, full, made, written) =
        create-written tools params user rest preset before after v h in
      rw same (
        rw written (
          reuse-run later rest' preset' _ (is_some-written tools params before _)
          ∙ load_written tools params before (obj created) (load-dump created made full)))

  -- After a run that returns, later runs without upgrade return the same docker-compose and leave the
  -- files as they are, whatever the preset, the user and the network are by then; and the run itself
  -- made the docker-compose from its preset if it was an upgrade. It is assumed that js-yaml loads
  -- what it dumped of that docker-compose.
  pub run_compose-reused :
      (user later : Option Text) (rest rest' : Rest) (preset preset' : ConfigPreset)
      (files after : Files) (v : Value)
      → LoadsDumped tools user rest preset
      → run_compose tools params user rest preset files ≡ returned (v, after)
      → (run_compose tools (without_upgrade params) later rest' preset' after ≡ returned (v, after))
        × ((params.upgrade ≡ false)
            ⊎ ((created : Fields) × (docker_compose tools.merge user rest preset ≡ returned created)
                × (v ≡ obj created)))
  unfolding run_compose
  run_compose-reused user later rest rest' preset preset' files after v load-dump h =
      let before = before_compose_files params files in
      elim (Bool-cases (is_some (before (compose_file params)))) [
        | inl there ↦ (
          after_reuse user later rest rest' preset preset' before after v there (rw there at h),
          inl (there-upgrade tools params files there),
        )
        | inr missing ↦
            let made : create tools params user rest preset before ≡ returned (v, after) =
              rw missing at h in
            let (created, same, _, from, _) =
              create-written tools params user rest preset before after v made in
            (
              after_create user later rest rest' preset preset' before after v load-dump made,
              inr (created, from, same),
            )
      ]
