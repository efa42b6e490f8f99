-- ===== src/Config.antt =====
-- src/config.rs: the settings of one session as its options show them, and the parameters of
-- threads and turns. An option is the protocol's select option, with the members the code fills in.
pub mod Settings
pub mod Options
pub mod Patch
pub mod Metadata
pub mod Threads
mod Tests
use codex_acp_v.Common.{String, Option, List}
use codex_acp_v.Json.{Value}

pub data Category : Type 0 where
  model_category : Category
  mode_category : Category

pub record SelectOption : Type 0 where
  pub value : String
  pub name : String
  pub description : Option String

pub record ConfigOption : Type 0 where
  pub config_id : String
  pub name : String
  pub category : Option Category
  pub current_value : String
  pub choices : List SelectOption

-- `SessionConfigOptionValue`: an id, or a value of another kind.
pub data OptionValue : Type 0 where
  id_value : String → OptionValue
  other_value : Value → OptionValue

pub data ConfigError : Type 0 where
  not_an_id : ConfigError
  unknown_option : ConfigError
  unsupported_value : String → ConfigError
  backend_sandbox : ConfigError
  backend_mode : ConfigError
  not_negotiated : ConfigError
  codex_not_object : ConfigError
  unsupported_section : String → ConfigError
  section_not_object : ConfigError
  unsupported_field : String → ConfigError
  combined_turns : ConfigError
  config_not_object : ConfigError
  not_session_scoped : String → ConfigError
  server_without_name : ConfigError
  server_name : ConfigError
  transport : ConfigError
  servers_twice : ConfigError
  unsupported_override : String → ConfigError
