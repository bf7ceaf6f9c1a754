-- ===== src/Config/Reload/Laws.antt =====
-- Which calls on the configuration return, and what `JWTTTL` returns after any of them.
use blank_sr.Base.{
  ◌≡◌, ◌∙◌, ap, refl, sym, subst, String, Bool, Option, none, some, List, map, true, false,
  string_eq,
}
use blank_sr.Base.Map.{lookup}
use blank_sr.Config.Names.{obj_common_settings, obj_server_settings}
use blank_sr.Config.Props.{Floats}
use blank_sr.Config.Reload.{
  Json, Package, Outcome, done, panicked, exited, and_then, common_entries, common_i18n,
  common_from, load_common_settings, server_entries, server_from, load_server_settings, parsed,
  adopt, load_from_providers, stores_of, nil_map, load_conf, read_config, init, updated,
}
use blank_sr.Config.Settings.{CommonSettings, ServerSettings, Settings, make_default_settings}
use blank_sr.Config.Settings.Cache.{Fresh}
use blank_sr.Config.Stores.{Store, Stores, MigrationTask}
use blank_sr.Config.Validate.{validate}
use blank_sr.Config.Reload.Providers.{
  with_providers, GivesStore, load_from_providers-some, load_from_providers-none,
}

abbrev pub settings_of : {F : Type 0} → CommonSettings F → Option ServerSettings → Settings F
settings_of c o = record { common = some c; server = o }

done-injective {ℓ} : {A : Type ℓ} (a b : A) → ◌≡◌ {A = Outcome A} (done a) (done b) → a ≡ b
done-injective a b h = cc

module _ {F R B : Type 0} (json : Json F R B) where
  common_i18n-returns :
      (e : Option B) (c : CommonSettings F)
      → (d : CommonSettings F) × (common_i18n json e (some c) ≡ done (some d))
  common_i18n-returns none c = (c, refl)
  common_i18n-returns (some b) c = (record c { i18n = json.unmarshal_i18n b c.i18n }, refl)

  common_from-returns :
      (o : Option (Store F R)) (c : CommonSettings F) (x : Option ServerSettings)
      → (d : CommonSettings F) × (common_from json o (settings_of c x) ≡ done (settings_of d x))
  common_from-returns none c x = (c, refl)
  common_from-returns (some cs) c x =
      let (d, e) =
        common_i18n-returns (json.marshal cs.i18n)
          (common_entries json (json.marshal cs.entries) c) in
      (d, ap (λ r. and_then r (λ y. done (record (settings_of c x) { common = y }))) e)

  server_entries-returns :
      (e : Option B) (x : ServerSettings)
      → Fresh (some x)
      → (y : ServerSettings) × (server_entries json e (some x) ≡ done (some y)) × Fresh (some y)
  server_entries-returns none x f = (x, refl, f)
  server_entries-returns (some b) x f =
      (record (json.unmarshal_server b x) { cached = none }, refl, tt)

  server_from-returns :
      (o : Option (Store F R)) (c : CommonSettings F) (x : ServerSettings)
      → Fresh (some x)
      → (y : ServerSettings) × (server_from json o (settings_of c (some x))
          ≡ done (settings_of c (some y)))
        × Fresh (some y)
  server_from-returns none c x f = (x, refl, f)
  server_from-returns (some ss) c x f =
      let (y, e, g) = server_entries-returns (json.marshal ss.entries) x f in
      (y, ap (λ r. and_then r (λ z. done (record (settings_of c (some x)) { server = z }))) e, g)

  module _ (fl : Floats F) (blank : R) (sort : List MigrationTask → List MigrationTask) where
    -- There are settings, and what is kept of them is fresh.
    abbrev pub HasSettings : Package F R B → Type 0
    HasSettings s =
        (c : CommonSettings F) × (x : ServerSettings) × (s.settings ≡ settings_of c (some x))
        × Fresh (some x)

    -- The configuration that the given one becomes.
    abbrev pub composed : (String → Option (Stores F R)) → Stores F R → Package F R B → Stores F R
    composed get conf s = validate fl blank sort (with_providers (map get s.providers) conf)

    adopt-returns :
        (given : Stores F R) (s : Package F R B)
        → HasSettings s
        → (c : CommonSettings F) × (x : ServerSettings) × (adopt json fl blank sort given s
            ≡ done (record s {
              settings = settings_of c (some x);
              config = validate fl blank sort given;
            }))
          × Fresh (some x)
    unfolding adopt load_common_settings load_server_settings
    adopt-returns given s (c, x, e, f) =
        let (d, ed) = common_from-returns (lookup obj_common_settings given) c (some x) in
        let (y, ey, g) = server_from-returns (lookup obj_server_settings given) d x f in
        let last : Settings F → Outcome (Package F R B) =
          λ z. done (record s { settings = z; config = validate fl blank sort given }) in
        let rest : Settings F → Outcome (Package F R B) =
          λ w. and_then (server_from json (lookup obj_server_settings given) w) last in
        (
          d,
          y,
          ap (λ z. and_then (common_from json (lookup obj_common_settings given) z) rest) e
              ∙ ap (λ r. and_then r rest) ed
              ∙ ap (λ r. and_then r last) ey,
          g,
        )

    pub load_conf-some :
        (get : String → Option (Stores F R)) (conf : Stores F R) (s : Package F R B)
        → load_conf json fl blank sort get (some conf) s
          ≡ adopt json fl blank sort (with_providers (map get s.providers) conf) s
    unfolding load_conf
    load_conf-some get conf s =
        ap (λ r. and_then r (λ o. adopt json fl blank sort (stores_of o) s))
          (load_from_providers-some (map get s.providers) conf)

    pub load_conf-none :
        (get : String → Option (Stores F R)) (s : Package F R B)
        → GivesStore (map get s.providers)
        → load_conf json fl blank sort get none s ≡ panicked nil_map
    unfolding load_conf
    load_conf-none get s gives =
        ap (λ r. and_then r (λ o. adopt json fl blank sort (stores_of o) s))
          (load_from_providers-none (map get s.providers) gives)

    pub load_conf-returns :
        (get : String → Option (Stores F R)) (conf : Stores F R) (s : Package F R B)
        → HasSettings s
        → (c : CommonSettings F) × (x : ServerSettings) × (load_conf json fl blank sort get
              (some conf)
              s
            ≡ done (record s { settings = settings_of c (some x); config = composed get conf s }))
          × Fresh (some x)
    load_conf-returns get conf s set =
        let (c, x, e, f) = adopt-returns (with_providers (map get s.providers) conf) s set in
        (c, x, load_conf-some get conf s ∙ e, f)

    adopted-HasSettings :
        (r : Outcome (Option (Stores F R))) (s t : Package F R B)
        → HasSettings s
        → and_then r (λ o. adopt json fl blank sort (stores_of o) s) ≡ done t
        → HasSettings t
    adopted-HasSettings (done o) s t set h =
        let (c, x, e, f) = adopt-returns (stores_of o) s set in
        subst HasSettings (done-injective _ t (sym e ∙ h)) (c, x, refl, f)
    adopted-HasSettings (panicked m) s t set h = cc
    adopted-HasSettings exited s t set h = cc

    -- What `readConfig` makes of the file, if the program goes on.
    parsed-HasSettings :
        (get : String → Option (Stores F R)) (dev : Bool) (o : Option (Option (Stores F R)))
        (s t : Package F R B)
        → HasSettings s
        → parsed json fl blank sort get dev o s ≡ done t
        → HasSettings t
    unfolding load_conf
    parsed-HasSettings get true none s t set h = subst HasSettings (done-injective s t h) set
    parsed-HasSettings get false none s t set h = cc
    parsed-HasSettings get dev (some conf) s t set h =
        adopted-HasSettings (load_from_providers (map get s.providers) conf) s t set h

    read_config-HasSettings :
        (get : String → Option (Stores F R)) (dev : Bool) (file : Option B) (s t : Package F R B)
        → HasSettings s
        → read_config json fl blank sort get dev file s ≡ done t
        → HasSettings t
    unfolding read_config
    read_config-HasSettings get dev none s t set h = subst HasSettings (done-injective s t h) set
    read_config-HasSettings get dev (some b) s t set h =
        parsed-HasSettings get dev (json.unmarshal_conf b) s t set h

    -- After `Init`, if it does not end the program, there are settings.
    pub init-HasSettings :
        (get : String → Option (Stores F R)) (dev : Bool) (file : Option B) (s t : Package F R B)
        → init json fl blank sort get dev file s ≡ done t
        → HasSettings t
    unfolding init make_default_settings
    init-HasSettings get dev file s t h = go (read_config json fl blank sort get dev file u) refl h
      where
        u : Package F R B
        u = record s { settings = make_default_settings }

        go :
            (r : Outcome (Package F R B))
            → read_config json fl blank sort get dev file u ≡ r
            → and_then r (λ v. done (updated v)) ≡ done t
            → HasSettings t
        go (done v) e h =
            let set : HasSettings v = read_config-HasSettings get dev file u v (_, _, refl, tt) e in
            subst HasSettings (done-injective (updated v) t h) set
        go (panicked m) e h = cc
        go exited e h = cc
