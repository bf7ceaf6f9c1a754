-- ===== src/Tests/Typing.antt =====
-- config/process.go: a store whose properties are checked.
use blank_sr.Base.{ℕ, ◌≡◌, refl, true, some, string_eq}
use blank_sr.Base.Map.{lookup}
use blank_sr.Config.Checks.{int, kind_of, invalid, wrong_default}
use blank_sr.Config.Defaults.{load_default_into_prop}
use blank_sr.Config.Defaults.Untyped.{untyped_default}
use blank_sr.Config.Props.{Property, property, end, entry, attrs, to_map}
use blank_sr.Config.Stores.{Store}
use blank_sr.Config.Switch.{validate_prop}
use blank_sr.Config.Typing.{AllTyped, IsTyped}
use blank_sr.Config.Validate.Typed.{valid_stores-AllTyped}
use blank_sr.Tests.Configs.{plain, bare_store, nats, linked, given_to, linked-IsUnique, links}
use blank_sr.Values.{string}

valid_stores-AllTyped_example : AllTyped nats true (given_to "first" "second").props
valid_stores-AllTyped_example =
    valid_stores-AllTyped nats 0 linked linked-IsUnique "first" (given_to "first" "second") links

abbrev text_default : Property ℕ ℕ
text_default = property (record plain { configurable = true; default = string "x" }) end

abbrev bare_int : Property ℕ ℕ
bare_int = property (record plain { name = "age"; typ = "int" }) end

abbrev with_int : Store ℕ ℕ
with_int = record bare_store { props = entry "age" bare_int end }

own_int : lookup "age" (to_map with_int.props) ≡ some bare_int
unfolding lookup to_map string_eq
own_int = refl

is_int : kind_of "int" ≡ int
unfolding kind_of string_eq
is_int = refl

untyped_default_example :
    (q : Property ℕ ℕ) × (lookup "age"
        (to_map (load_default_into_prop "age" text_default with_int).props)
      ≡ some q)
    × (kind_of (attrs q).typ ≡ int)
    × ((attrs q).default ≡ string "x")
    × (validate_prop nats true "age" q ≡ invalid wrong_default "age")
    × (¬ IsTyped nats true q)
untyped_default_example =
    untyped_default nats true "age" text_default bare_int with_int "x" refl refl own_int is_int refl
