-- ===== src/Http/Configuration/Laws.antt =====
-- What `postConfigHandler` does with a nil map.
use blank_sr.Base.{String}
use blank_sr.Config.Stores.{Stores}
