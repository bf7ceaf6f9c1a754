-- ===== src/Config/Stores.antt =====
-- config/config.go: stores, their filters and migrations. What process.go neither reads nor writes
-- of them is in `rest`. The entries of `Migration` are not nil.
use blank_sr.Base.{String, Bool, Option, List}
use blank_sr.Base.Int.{ℤ}
use blank_sr.Base.Map.{Map}
use blank_sr.Config.Props.{Access, Properties}
use blank_sr.Values.{Value, Fields}

pub record Filter (F R : Type 0) : Type 0 where
  pub display : String
  pub filter_by : String
  pub label : String
  pub mask : String
  pub multi : Bool
  pub options : List (Value F)
  pub placeholder : String
  pub search_by : List (Value F)
  pub store : String
  pub rest : R

pub record MigrationTask : Type 0 where
  pub version : ℤ
  pub script : String

pub record DataSource : Type 0 where
  pub typ : String
  pub file : String

pub record Store (F R : Type 0) : Type 0 where
  pub access : List (Access F)
  pub base_store : String
  pub data_source : Option DataSource
  pub entries : Fields F
  pub filters : Map String (Filter F R)
  pub i18n : Fields F
  pub label : String
  pub migration : List MigrationTask
  pub props : Properties F R
  pub store : String
  pub typ : String
  pub rest : R

abbrev pub Stores : Type 0 → Type 0 → Type 0
Stores F R = Map String (Store F R)
