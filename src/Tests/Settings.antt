-- ===== src/Tests/Settings.antt =====
-- config/settings.go and the reloading of the configuration.
use blank_sr.Base.{ℕ, ◌^◌, ◌-◌, ◌≡◌, refl, true, none, some, List, [], ◌∷◌, nat_eq, arith}
use blank_sr.Base.Int.{pos, negsuc}
use blank_sr.Config.Reload.{Json, Package, updated}
use blank_sr.Config.Reload.History.{Event, reload, register, subscribe, ask}
use blank_sr.Config.Settings.{
  ServerSettings, ttl, no_number, nanoseconds, make_default_settings, jwt_ttl, parse_ttl,
}
use blank_sr.Config.Settings.Cache.{IsText, total, ttl_round_trip, ttl_overflows}
use blank_sr.Config.Settings.Decimal.{digits}
use blank_sr.Config.Stores.{Stores}
use blank_sr.Tests.Configs.{bare_store}

abbrev default_server : ServerSettings
default_server = record {
  register_token_expiration = "0:60";
  password_reset_token_expiration = "0:60";
  activation_email_template = "";
  password_reset_email_template = "";
  password_reset_success_email_template = "";
  registration_success_email_template = "";
  activation_success_page = "";
  activation_error_page = "";
  max_log_size = pos 1000;
  port = "3001";
  sso_origins = [];
  jwt_ttl = "24:5";
  auth = none;
  cached = none;
}

reads : IsText "24:5" 24 5
unfolding digits
reads = refl

ttl_round_trip_example :
    ((jwt_ttl {F = ℕ} (record { common = none; server = some default_server })).0
      ≡ ttl (total 24 5))
    × (nanoseconds (total 24 5) ≡ pos (total 24 5))
ttl_round_trip_example = ttl_round_trip none default_server 24 5 tt reads (omega arith)

abbrev long_server : ServerSettings
long_server = record default_server { jwt_ttl = "2562048:0" }

long_reads : IsText "2562048:0" 2562048 0
unfolding digits
long_reads = refl

ttl_overflows_example :
    ((jwt_ttl {F = ℕ} (record { common = none; server = some long_server })).0
      ≡ ttl (total 2562048 0))
    × (nanoseconds (total 2562048 0) ≡ negsuc (2 ^ 64 - total 2562048 0 - 1))
ttl_overflows_example =
    ttl_overflows none long_server 2562048 0 tt long_reads (omega arith) (omega arith)

-- An encoder that loses everything, and a decoder that always reads a TTL of two hours.
abbrev pub two_hours : Json ℕ ℕ ℕ
two_hours = record {
  marshal = λ fs. some 0;
  marshal_conf = λ conf. some 0;
  unmarshal_conf = λ b. some (some []);
  unmarshal_common = λ b c. c;
  unmarshal_i18n = λ b fs. fs;
  unmarshal_server = λ b x. record x { jwt_ttl = "2:0" };
}

abbrev unset : Package ℕ ℕ ℕ
unset = record {
  settings = record { common = none; server = none };
  config = [];
  providers = [];
  handlers = "log" ∷ [];
  file = none;
  notified = [];
}

abbrev pub started : Package ℕ ℕ ℕ
started = updated (record unset { settings = make_default_settings })

abbrev pub new_conf : Stores ℕ ℕ
new_conf = ("_serverSettings", bare_store) ∷ []

abbrev calls : List (Event ℕ ℕ)
calls = ask ∷ register "files" ∷ subscribe "watch" ∷ reload (λ p. none) true new_conf ∷ []

a_day : parse_ttl "24:00" ≡ ttl 86400000000000
unfolding parse_ttl nat_eq
a_day = refl

half_an_hour : parse_ttl "1:-30" ≡ ttl 1800000000000
unfolding parse_ttl nat_eq
half_an_hour = refl

not_a_number : parse_ttl "a day" ≡ no_number
unfolding parse_ttl nat_eq
not_a_number = refl

empty_ttl : parse_ttl "" ≡ no_number
unfolding parse_ttl nat_eq
empty_ttl = refl

-- The file is read as the configuration that was given.
abbrev faithful : Json ℕ ℕ ℕ
faithful = record two_hours { unmarshal_conf = λ b. some (some new_conf) }
