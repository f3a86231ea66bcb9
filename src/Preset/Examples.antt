-- ===== src/Preset/Examples.antt =====
-- A node that is an API node, with its own mongo setting.
use symbol_bootstrap.Base.{◌≡◌, refl, true, false, some, [], ◌∷◌}
use symbol_bootstrap.Base.Text.{text, text_eq}
use symbol_bootstrap.Value.{bool, Fields, field, no_fields}
use symbol_bootstrap.Preset.{
  lookup, set_field, spread_fields, get_default_configuration, dynamic_default_node_configuration,
}

abbrev api_node : Fields
api_node = field (text "api") (bool true) (field (text "mongo") (bool false) no_fields)

api_node_defaults :
    dynamic_default_node_configuration (some (api_node ∷ []))
    ≡ field (text "syncsource") (bool false) (
        field (text "filespooling") (bool true) (
          field (text "partialtransaction") (bool true) (
            field (text "addressextraction") (bool true) (
              field (text "mongo") (bool false) (
                field (text "zeromq") (bool true) (
                  field
                    (text "enableAutoSyncCleanup")
                    (bool false)
                    (field (text "api") (bool true) no_fields)))))))
      ∷ []
unfolding dynamic_default_node_configuration get_default_configuration spread_fields set_field
    lookup text_eq
api_node_defaults = refl
