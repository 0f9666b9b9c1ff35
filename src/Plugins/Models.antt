-- ===== src/Plugins/Models.antt =====
-- services/integration/plugin_sdk/plugin_models.py: manifests, records and the two vocabularies.
use vision_virtual_intellige.Prelude.{String, Option, List}

pub data PluginState : Type 0 where
  installed enabled disabled error : PluginState

pub data PluginSourceType : Type 0 where
  python_package zip_bundle editable : PluginSourceType

pub record PluginDependency : Type 0 where
  pub plugin_id : String
  pub version_constraint : Option String

pub record PluginManifest : Type 0 where
  pub id : String
  pub name : String
  pub version : String
  pub author : String
  pub description : String
  pub entrypoint : String
  pub api_version : String
  pub permissions : List String
  pub dependencies : List PluginDependency
  pub hooks : List String

pub record PluginRecord : Type 0 where
  pub manifest : PluginManifest
  pub state : PluginState
  pub source_type : PluginSourceType
  pub source_path : Option String
  pub installed_at : String
  pub enabled_at : Option String
  pub disabled_at : Option String
  pub last_error : Option String

pub record CapabilityInfo : Type 0 where
  pub plugin_id : String
  pub hooks : List String
  pub permissions : List String
