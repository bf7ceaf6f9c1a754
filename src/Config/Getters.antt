-- ===== src/Config/Getters.antt =====
-- config/getters.go. `copy` is what copier.Copy makes of a store.
use blank_sr.Base.{[], ◌∷◌}
use blank_sr.Config.Stores.{Store, Stores}

-- `Get`
unfoldable pub get : {F R : Type 0} → (Store F R → Store F R) → Stores F R → Stores F R
get copy [] = []
get copy ((k, v) ∷ conf) = (k, copy v) ∷ get copy conf
