-- ===== src/Main/Server.antt =====
-- main.go: `start` for the archives that the server has, and what it answers to requests and
-- subscriptions.
use blank_sr.Base.{String, Bool, Option, none, List, []}
use blank_sr.Base.Map.{Map}
use blank_sr.Config.Props.{Floats}
use blank_sr.Config.Reload.{Json, Package, Outcome, done}
use blank_sr.Config.Stores.{Store, Stores, MigrationTask}
use blank_sr.Database.{Database}
use blank_sr.Handlers.Services.{registry_handler}
use blank_sr.Handlers.Sessions.{sub_sessions_handler}
use blank_sr.Handlers.State.{App, Reply}
use blank_sr.Http.{
  Site, Response, Upload, Archives, make_lib_fs, make_assets_fs, config_handler, lib_handler,
  assets_handler, public_key_handler,
}
use blank_sr.Http.Configuration.{Decoded, post_config_handler}
use blank_sr.Sessions.Data.{Codec}

-- The routes of the multiplexer but "/", which is for the connections of clients.
pub data Route : Type 0 where
  to_config to_lib to_assets to_public_key : Route

-- The topics that a client can subscribe to.
pub data Topic : Type 0 where
  registry_topic config_topic sessions_topic events_topic users_topic : Topic

-- What a subscriber is sent at once: the result of the handler of the topic, if there is one.
pub data Greeting (F R : Type 0) : Type 0 where
  reply : Reply F → Greeting F R
  stores : Stores F R → Greeting F R
  silent : Greeting F R

-- A request as the handlers read it: `body` is what its body gives as a file, and `conf` what the
-- decoder makes of it. `writable` says whether config.json can be written.
pub record Request (F R B : Type 0) : Type 0 where
  pub method : String
  pub uri : String
  pub body : Upload B
  pub conf : Decoded F R
  pub writable : Bool

module _ {F R B Fs : Type 0} (zips : Archives B Fs) where
  -- The server with nothing but its configuration and the files on the disk.
  abbrev pub closed_site : Package F R B → Map String B → Site F R B Fs
  closed_site setup disk = record {
    lib_fs = none;
    lib_zip = none;
    assets_fs = none;
    disk = disk;
    setup = setup;
    published = [];
  }

  -- The end of `start`: `makeLibFS` and `makeAssetsFS`.
  unfoldable pub open_site : Package F R B → Map String B → Site F R B Fs
  unfolding make_lib_fs make_assets_fs
  open_site setup disk = make_assets_fs zips (make_lib_fs zips (closed_site setup disk))

  module _ (copy : Store F R → Store F R) where
    -- What main gives to `RegisterSubHandler`.
    unfoldable pub subscribe :
        (D : Database)
        → Codec F D.Bytes
        → List String
        → List String
        → Topic
        → App F D.Db
        → Site F R B Fs
        → Greeting F R
    unfolding config_handler registry_handler sub_sessions_handler
    subscribe D C types keys registry_topic s t = reply (registry_handler D types s).0
    subscribe D C types keys config_topic s t = stores (config_handler zips copy t)
    subscribe D C types keys sessions_topic s t = reply (sub_sessions_handler D C keys s).0
    subscribe D C types keys events_topic s t = silent
    subscribe D C types keys users_topic s t = silent

    module _ (json : Json F R B) (fl : Floats F) (blank : R)
        (sort : List MigrationTask → List MigrationTask) (providers : String → Option (Stores F R))
        (base : String → String) (public_key : B) where
      -- What main gives to the multiplexer.
      unfoldable pub serve :
          Route → Request F R B → Site F R B Fs → Outcome (Response B × Site F R B Fs)
      unfolding post_config_handler lib_handler assets_handler public_key_handler
      serve to_config r s =
          post_config_handler json fl blank sort providers r.writable r.method r.conf s
      serve to_lib r s = done (lib_handler zips copy base r.method r.uri r.body s)
      serve to_assets r s = done (assets_handler zips copy r.method r.uri r.body s)
      serve to_public_key r s = done (public_key_handler public_key r.method, s)
