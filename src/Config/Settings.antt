-- ===== src/Config/Settings.antt =====
-- config/settings.go. A duration is an int64 in nanoseconds, kept as its bit pattern below 2 ^ 64.
pub mod Decimal
pub mod Cache
use blank_sr.Base.{
  ℕ, zero, suc, ◌+◌, ◌-◌, ◌*◌, ◌%◌, ◌^◌, String, Bool, true, false, ◌&&◌, Option, none, some, List,
  [], ◌∷◌, ◌==◌, if◌then◌else◌, nat_eq, ltb, leb,
}
use blank_sr.Base.Int.{ℤ, pos, negsuc}
use blank_sr.Values.{Fields}
use Prim.Native.Char.{code}
use Prim.Native.String as Text

-- The characters of a text.
abbrev pub codes : String → List ℕ
codes Text.[] = []
codes (Text.◌∷◌ c s) = code c ∷ codes s

-- A character in front of the first part.
abbrev pub in_front : ℕ → List (List ℕ) → List (List ℕ)
in_front c [] = (c ∷ []) ∷ []
in_front c (p ∷ ps) = (c ∷ p) ∷ ps

-- `strings.Split(s, ":")`
unfoldable pub split : List ℕ → List (List ℕ)
split [] = [] ∷ []
split (c ∷ cs) = let rest = split cs in if c == 58 then [] ∷ rest else in_front c rest

-- The number that a row of digits continues, or `none` at another character.
unfoldable pub continued : ℕ → List ℕ → Option ℕ
continued n [] = some n
continued n (c ∷ cs) =
    let rest = continued (n * 10 + (c - 48)) cs in if leb 48 c && leb c 57 then rest else none

unfoldable pub magnitude : List ℕ → Option ℕ
unfolding continued
magnitude [] = none
magnitude (c ∷ cs) = continued 0 (c ∷ cs)

-- The range of an `int`, of 64 bits.
abbrev pub positive : Option ℕ → Option ℤ
positive none = none
positive (some n) = if ltb n (2 ^ 63) then some (pos n) else none

abbrev pub negative : Option ℕ → Option ℤ
negative none = none
negative (some zero) = some (pos 0)
negative (some (suc n)) = if ltb n (2 ^ 63) then some (negsuc n) else none

-- `strconv.Atoi`, with `none` for its errors.
unfoldable pub atoi : List ℕ → Option ℤ
unfolding magnitude
atoi [] = none
atoi (c ∷ cs) =
    if c == 45
    then negative (magnitude cs)
    else if c == 43
    then positive (magnitude cs)
    else positive (magnitude (c ∷ cs))

-- `time.Duration(n)`
abbrev pub duration : ℤ → ℕ
duration (pos n) = n % 2 ^ 64
duration (negsuc n) = 2 ^ 64 - 1 - n % 2 ^ 64

-- The number of nanoseconds that a pattern stands for.
abbrev pub nanoseconds : ℕ → ℤ
nanoseconds w = if ltb w (2 ^ 63) then pos w else negsuc (2 ^ 64 - w - 1)

-- `time.Hour` and `time.Minute`
abbrev pub hour : ℕ
hour = 3600000000000

abbrev pub minute : ℕ
minute = 60000000000

-- What `JWTTTL` returns: a duration, `ErrInvalidTTLFormat`, or the error of `Atoi`.
pub data Ttl : Type 0 where
  ttl : ℕ → Ttl
  invalid_format no_number : Ttl

-- The minutes, if there are any, are added to the hours.
abbrev pub plus_minutes : ℕ → Option ℤ → Ttl
plus_minutes res none = no_number
plus_minutes res (some n) = ttl ((res + minute * duration n % 2 ^ 64) % 2 ^ 64)

abbrev pub plus_hours : Option ℤ → List (List ℕ) → Ttl
plus_hours none ms = no_number
plus_hours (some n) [] = ttl (hour * duration n % 2 ^ 64)
plus_hours (some n) (m ∷ ms) = plus_minutes (hour * duration n % 2 ^ 64) (atoi m)

abbrev pub from_parts : List (List ℕ) → Ttl
from_parts [] = invalid_format
from_parts (h ∷ ms) = plus_hours (atoi h) ms

-- The part of `JWTTTL` that reads the text.
unfoldable pub parse_ttl : String → Ttl
unfolding split atoi
parse_ttl s = from_parts (split (codes s))

pub record AuthLifeCycle : Type 0 where
  pub find_user : String
  pub check_password : String
  pub change_password : String
  pub will_sign_in : String
  pub did_sign_in : String
  pub will_sign_out : String
  pub did_sign_out : String
  pub create_token : String

pub record CommonSettings (F : Type 0) : Type 0 where
  pub base_url : String
  pub build_time : String
  pub commit : String
  pub default_locale : String
  pub i18n : Fields F
  pub jwt_extra_props : List String
  pub less_vars : Fields F
  pub uri_prefix : String
  pub user_activation : Bool

-- `serverSettingsStruct`; `cached` is the field jwtTTL.
pub record ServerSettings : Type 0 where
  pub register_token_expiration : String
  pub password_reset_token_expiration : String
  pub activation_email_template : String
  pub password_reset_email_template : String
  pub password_reset_success_email_template : String
  pub registration_success_email_template : String
  pub activation_success_page : String
  pub activation_error_page : String
  pub max_log_size : ℤ
  pub port : String
  pub sso_origins : List String
  pub jwt_ttl : String
  pub auth : Option AuthLifeCycle
  pub cached : Option ℕ

-- The variables `commonSettings` and `serverSettings`, `none` for nil.
pub record Settings (F : Type 0) : Type 0 where
  pub common : Option (CommonSettings F)
  pub server : Option ServerSettings

-- A duration that was read is kept.
abbrev pub remember : Ttl → ServerSettings → ServerSettings
remember (ttl d) x = record x { cached = some d }
remember invalid_format x = x
remember no_number x = x

-- `JWTTTL` where there are settings.
unfoldable pub read_ttl : ServerSettings → Ttl × ServerSettings
unfolding parse_ttl
read_ttl x = elim x.cached [
  | some d ↦ (ttl d, x)
  | none ↦ let r = parse_ttl x.jwt_ttl in (r, remember r x)
]

module _ {F : Type 0} where
  -- `makeDefaultSettings`
  unfoldable pub make_default_settings : Settings F
  make_default_settings = record {
    common = some (record {
      base_url = "http://localhost:8080";
      build_time = "";
      commit = "";
      default_locale = "en";
      i18n = Fields.end;
      jwt_extra_props = [];
      less_vars = Fields.end;
      uri_prefix = "";
      user_activation = false;
    });
    server = some (record {
      register_token_expiration = "0:60";
      password_reset_token_expiration = "0:60";
      activation_email_template = "./templates/activation-email.html";
      password_reset_email_template = "./templates/password-reset-email.html";
      password_reset_success_email_template = "/templates/password-reset-success-email.html";
      registration_success_email_template = "./templates/registration-success-email.html";
      activation_success_page = "./templates/activation-success.html";
      activation_error_page = "./templates/activation-error.html";
      max_log_size = pos 1000;
      port = "3001";
      sso_origins = [];
      jwt_ttl = "24:00";
      auth = none;
      cached = none;
    });
  }

  -- `JWTTTL`
  unfoldable pub jwt_ttl : Settings F → Ttl × Settings F
  unfolding read_ttl
  jwt_ttl s = elim s.server [
    | none ↦ (ttl (24 * hour), s)
    | some x ↦ let (r, y) = read_ttl x in (r, record s { server = some y })
  ]

  -- `JWTExtraProps`
  unfoldable pub jwt_extra_props : Settings F → List String
  jwt_extra_props s = elim s.common [ none ↦ [] | some c ↦ c.jwt_extra_props ]
