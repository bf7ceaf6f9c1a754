-- ===== src/Config/Reload/Providers.antt =====
-- What the providers add to a map of stores, and to a nil map.
use blank_sr.Base.{◌≡◌, [], ◌∷◌, ◌∙◌, ap, refl, Option, none, some, List, string_eq}
use blank_sr.Base.Merging.{merge_into}
use blank_sr.Config.Defaults.{provided}
use blank_sr.Config.Reload.{
  done, panicked, and_then, load_from_provider, load_from_providers, nil_map,
}
use blank_sr.Config.Stores.{Stores}

module _ {F R : Type 0} where
  -- What the stores become with those of the providers.
  abbrev pub with_providers : List (Option (Stores F R)) → Stores F R → Stores F R
  with_providers [] conf = conf
  with_providers (none ∷ providers) conf = with_providers providers conf
  with_providers (some cfg ∷ providers) conf =
      with_providers providers (merge_into provided cfg conf)

  load_from_provider-some :
      (cfg conf : Stores F R)
      → load_from_provider cfg (some conf) ≡ done (some (merge_into provided cfg conf))
  unfolding load_from_provider
  load_from_provider-some [] conf = refl
  load_from_provider-some (store ∷ cfg) conf = refl

  pub load_from_providers-some :
      (providers : List (Option (Stores F R))) (conf : Stores F R)
      → load_from_providers providers (some conf) ≡ done (some (with_providers providers conf))
  unfolding load_from_providers
  load_from_providers-some [] conf = refl
  load_from_providers-some (none ∷ providers) conf = load_from_providers-some providers conf
  load_from_providers-some (some cfg ∷ providers) conf =
      ap (λ r. and_then r (load_from_providers providers)) (load_from_provider-some cfg conf)
      ∙ load_from_providers-some providers (merge_into provided cfg conf)

  -- Some provider gives a store.
  abbrev pub GivesStore : List (Option (Stores F R)) → Type 0
  GivesStore [] = ⊥
  GivesStore (none ∷ providers) = GivesStore providers
  GivesStore (some [] ∷ providers) = GivesStore providers
  GivesStore (some (store ∷ cfg) ∷ providers) = Unit {0}

  pub load_from_providers-none :
      (providers : List (Option (Stores F R)))
      → GivesStore providers
      → load_from_providers providers none ≡ panicked nil_map
  unfolding load_from_providers load_from_provider
  load_from_providers-none [] gives = absurd gives
  load_from_providers-none (none ∷ providers) gives = load_from_providers-none providers gives
  load_from_providers-none (some [] ∷ providers) gives = load_from_providers-none providers gives
  load_from_providers-none (some (store ∷ cfg) ∷ providers) gives = refl
