-- ===== src/Config/Mongo.antt =====
-- config/mongocfg.go: the provider that reads stores from MongoDB. The environment is a function,
-- and what the driver finds at an address is a parameter.
use blank_sr.Base.{String, ◌<>◌, Option, none, some, List, [], ◌∷◌, ◌==◌, if◌then◌else◌, string_eq}
use blank_sr.Base.Map.{insert}
use blank_sr.Config.Reload.{Package, register_config_provider}
use blank_sr.Config.Stores.{Store, Stores}

pub record MongoCfgProvider : Type 0 where
  pub url : String
  pub db : String

-- `Name`
abbrev pub name : String
name = "MongoCFGProvider"

abbrev pub cfg_collection : String
cfg_collection = "blankCustomStores"

-- A variable of the environment, unless it is empty.
abbrev pub env_or : String → String → String
env_or v default = if v == "" then default else v

-- `collectionName`
abbrev pub collection_name : (String → String) → String
collection_name env = env_or (env "BLANK_CUSTOM_STORES_COLLECTION") cfg_collection

module _ {F R : Type 0} where
  -- The stores under their ids: of two with one id the later one stays.
  unfoldable pub by_id : List (String × Store F R) → Stores F R → Stores F R
  by_id [] res = res
  by_id ((id, s) ∷ stores) res = by_id stores (insert id s res)

  -- `Get`. `find` is `mgo.Dial` with the search for all stores of a collection, `none` for an error.
  unfoldable pub get :
      (String → String → String → Option (List (String × Store F R)))
      → (String → String)
      → MongoCfgProvider
      → Option (Stores F R)
  unfolding by_id
  get find env p = elim (find p.url p.db (collection_name env)) [
    | none ↦ none
    | some stores ↦ some (by_id stores [])
  ]

-- `RegisterMongoCFGProvider`: the provider, and the package that knows it.
unfoldable pub register_mongo_cfg_provider :
    {F R B : Type 0} → (String → String) → Package F R B → MongoCfgProvider × Package F R B
register_mongo_cfg_provider env s =
    let addr = env_or (env "MONGO_PORT_27017_TCP_ADDR") "localhost" in
    let port = env_or (env "MONGO_PORT_27017_TCP_PORT") "27017" in
    (
      record {
        url = "mongodb://" <> addr <> ":" <> port;
        db = env_or (env "MONGO_PORT_27017_DB_NAME") "blank";
      },
      register_config_provider name s,
    )
