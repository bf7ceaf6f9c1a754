-- ===== src/Config/Settings/Cache.antt =====
-- `JWTTTL`: the text that it reads, and the duration that it keeps.
use blank_sr.Base.{
  ℕ, suc, ◌+◌, ◌-◌, ◌*◌, ◌%◌, ◌^◌, ◌≤◌, ◌<◌, ◌≡◌, ◌∙◌, ap, refl, sym, String, Option, none, some,
  [], ◌∷◌, ◌++◌, arith,
}
use blank_sr.Base.Int.{pos, negsuc}
use blank_sr.Config.Settings.{
  codes, split, from_parts, plus_minutes, plus_hours, read_ttl, CommonSettings, nanoseconds, hour,
  minute, Ttl, ttl, invalid_format, no_number, parse_ttl, ServerSettings, remember, jwt_ttl,
}
use blank_sr.Config.Settings.Decimal.{
  decimal, digits-IsDigit, atoi-decimal, split-front, split-digits,
}

-- A text of hours and minutes.
abbrev pub IsText : String → ℕ → ℕ → Type 0
IsText t h m = codes t ≡ decimal h ++ 58 ∷ decimal m

abbrev pub total : ℕ → ℕ → ℕ
total h m = h * hour + m * minute

split-decimal : (h m : ℕ) → split (decimal h ++ 58 ∷ decimal m) ≡ decimal h ∷ decimal m ∷ []
split-decimal h m =
    split-front (decimal h) (decimal m) (digits-IsDigit (suc h) h)
    ∙ ap (λ ps. decimal h ∷ ps) (split-digits (decimal m) (digits-IsDigit (suc m) m))

pub parse_ttl-IsText :
    (t : String) (h m : ℕ)
    → IsText t h m
    → h < 2 ^ 63
    → m < 2 ^ 63
    → parse_ttl t ≡ ttl (total h m % 2 ^ 64)
unfolding parse_ttl
parse_ttl-IsText t h m is hh hm =
    ap from_parts (ap split is ∙ split-decimal h m)
    ∙ ap (λ o. plus_hours o (decimal m ∷ [])) (atoi-decimal h hh)
    ∙ ap (plus_minutes (hour * (h % 2 ^ 64) % 2 ^ 64)) (atoi-decimal m hm)
    ∙ ap ttl (omega arith)

-- What is kept is what the text says.
abbrev pub Fresh : Option ServerSettings → Type 0
Fresh none = Unit {0}
Fresh (some x) = elim x.cached [ none ↦ Unit {0} | some d ↦ parse_ttl x.jwt_ttl ≡ ttl d ]

Fresh-remember :
    (x : ServerSettings) (r : Ttl)
    → x.cached ≡ none
    → parse_ttl x.jwt_ttl ≡ r
    → Fresh (some (remember r x))
Fresh-remember x (ttl d) e h = h
Fresh-remember x invalid_format e h = rw e tt
Fresh-remember x no_number e h = rw e tt

pub read_ttl-Fresh :
    (x : ServerSettings) (c : Option ℕ)
    → Fresh (some (record x { cached = c }))
    → Fresh (some (read_ttl (record x { cached = c })).1)
unfolding read_ttl
read_ttl-Fresh x none f =
    Fresh-remember (record x { cached = none }) (parse_ttl x.jwt_ttl) refl refl
read_ttl-Fresh x (some d) f = f

read_ttl-current :
    (x : ServerSettings) (c : Option ℕ)
    → Fresh (some (record x { cached = c }))
    → (read_ttl (record x { cached = c })).0 ≡ parse_ttl x.jwt_ttl
unfolding read_ttl
read_ttl-current x none f = refl
read_ttl-current x (some d) f = sym f

module _ {F : Type 0} (c : Option (CommonSettings F)) where
  -- The call returns what the text says.
  pub jwt_ttl-current :
      (x : ServerSettings)
      → Fresh (some x)
      → (jwt_ttl (record { common = c; server = some x })).0 ≡ parse_ttl x.jwt_ttl
  unfolding jwt_ttl
  jwt_ttl-current x f = read_ttl-current x x.cached f

  -- The call keeps that there are settings.
  pub jwt_ttl-server :
      (x : ServerSettings)
      → jwt_ttl (record { common = c; server = some x })
        ≡ ((read_ttl x).0, record { common = c; server = some (read_ttl x).1 })
  unfolding jwt_ttl
  jwt_ttl-server x = refl

  -- `JWTTTL` reads back the hours and minutes that the text of the settings gives in decimal, as
  -- long as they are fewer than 2 ^ 63 nanoseconds together.
  pub ttl_round_trip :
      (x : ServerSettings) (h m : ℕ)
      → Fresh (some x)
      → IsText x.jwt_ttl h m
      → total h m < 2 ^ 63
      → ((jwt_ttl (record { common = c; server = some x })).0 ≡ ttl (total h m))
        × (nanoseconds (total h m) ≡ pos (total h m))
  ttl_round_trip x h m f is lt = (
    jwt_ttl-current x f
        ∙ parse_ttl-IsText x.jwt_ttl h m is (omega arith) (omega arith)
        ∙ ap ttl (omega arith),
    ground arith,
  )

  -- From 2 ^ 63 up to 2 ^ 64 nanoseconds the result of `JWTTTL` has wrapped around: it is a
  -- duration below zero, and no error.
  pub ttl_overflows :
      (x : ServerSettings) (h m : ℕ)
      → Fresh (some x)
      → IsText x.jwt_ttl h m
      → 2 ^ 63 ≤ total h m
      → total h m < 2 ^ 64
      → ((jwt_ttl (record { common = c; server = some x })).0 ≡ ttl (total h m))
        × (nanoseconds (total h m) ≡ negsuc (2 ^ 64 - total h m - 1))
  ttl_overflows x h m f is le lt = (
    jwt_ttl-current x f
        ∙ parse_ttl-IsText x.jwt_ttl h m is (omega arith) (omega arith)
        ∙ ap ttl (omega arith),
    ground arith,
  )
