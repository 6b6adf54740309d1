-- ===== src/Dto/Capabilities.antt =====
-- src/dto/capabilities.rs: the driver advertisement and the connection form.
use redis_driver_for_per_wor.Prelude.{ℕ, Bool, List, Option, String}

pub record TargetPattern : Type 0 where
  pub prefix : String
  pub keep_target : Option Bool

pub record FormOption : Type 0 where
  pub label : String
  pub value : String

pub record FormField : Type 0 where
  pub key : String
  pub title : String
  pub kind : ℕ
  pub placeholder : Option String
  pub default : Option String
  pub options : Option (List FormOption)
  pub validate : ℕ
  pub error : Option String

pub record FormSpec : Type 0 where
  pub prefix : Option String
  pub fields : List FormField

pub record DocumentWriteCapability : Type 0 where
  pub format : String
  pub text : Bool

pub record WriteCapabilities : Type 0 where
  pub row_writer : Bool
  pub document : Option DocumentWriteCapability

pub record QueryCommand : Type 0 where
  pub name : String
  pub usage : String
  pub summary : String

pub record QueryLanguage : Type 0 where
  pub name : String
  pub editor_label : String
  pub placeholder : String
  pub lexer : Option String
  pub examples : Option (List String)
  pub commands : Option (List QueryCommand)

pub data WorkspaceStandardTab : Type 0 where
  columns indexes foreign_keys diagram : WorkspaceStandardTab

pub data WorkspaceViewScope : Type 0 where
  database schema table : WorkspaceViewScope

pub record CustomWorkspaceView : Type 0 where
  pub id : String
  pub label : String
  pub scopes : List WorkspaceViewScope

pub record WorkspaceCapability : Type 0 where
  pub standard_tabs : Option (List WorkspaceStandardTab)
  pub custom_views : Option (List CustomWorkspaceView)

pub record Capabilities : Type 0 where
  pub name : String
  pub display : String
  pub targets : Option (List TargetPattern)
  pub form : Option FormSpec
  pub query_language : Option QueryLanguage
  pub write_capabilities : WriteCapabilities
  pub workspace : Option WorkspaceCapability

pub record InitializeResult : Type 0 where
  pub protocol_version : ℕ
  pub capabilities : Capabilities

pub record FormValues : Type 0 where
  pub host : Option String
  pub port : Option String
  pub user : Option String
  pub pass : Option String
  pub database : Option String
  pub tls : Option String
  pub extras : Option (List (String × String))
