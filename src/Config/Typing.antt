-- ===== src/Config/Typing.antt =====
-- config/process.go: what a property of each type may hold, said without `validateProps`.
pub mod Defaults
pub mod Sound
pub mod Accepted
use blank_sr.Base.{ℕ, ◌≤◌, ◌≡◌, ◌≢◌, ◌⊎◌, String, Bool, true, false}
use blank_sr.Base.Int.{pos}
use blank_sr.Config.Checks.{
  Kind, skipped, int, float, boolean, text, date, ref, ref_list, virtual, object_kind, object_list,
  virtual_ref_list, comments, virtual_client, unknown, kind_of,
}
use blank_sr.Config.Props.{Floats, Attrs, Property, Properties, property, end, entry}
use blank_sr.Values.{
  Value, null, bool, number, string, array, object, Values, Fields, field_or_null,
}

-- A default value: none, an object with an expression, or a value of the property's own type.
pub data HasDefault {F : Type 0} (A : Type 0) (of : A → Value F) (v : Value F) : Type 0 where
  unset : v ≡ null → HasDefault A of v
  expression :
      (d : Fields F) → v ≡ object d → field_or_null "$expression" d ≢ null → HasDefault A of v
  constant : (x : A) → v ≡ of x → HasDefault A of v

-- The values of a type without values.
abbrev pub no_value : {F : Type 0} → ⊥ → Value F
no_value x = elim x [ ]

module _ {F : Type 0} where
  -- A bound: a number, or zero where there is none.
  abbrev pub IsBound : Floats F → Value F → F → Type 0
  IsBound fl v x = (v ≡ number x) ⊎ ((v ≡ null) × (x ≡ fl.zero))

  -- The bounds are in order, or both zero, which stands for no bounds.
  abbrev pub IsRange : Floats F → Value F → Value F → Type 0
  IsRange fl min max =
      (x y : F) × IsBound fl min x
      × IsBound fl max y
      × (((fl.eq x fl.zero ≡ true) × (fl.eq y fl.zero ≡ true)) ⊎ (fl.lt y x ≡ false))

module _ {F R : Type 0} where
  -- No parameters of a reference, of a number, and of a text.
  abbrev pub NoRef : Attrs F R → Type 0
  NoRef a = (a.store ≡ "") × (a.opposite_prop ≡ "") × (a.extra_query ≡ null) × (a.query ≡ null)

  abbrev pub NoRange : Attrs F R → Type 0
  NoRange a = (a.min ≡ null) × (a.max ≡ null)

  abbrev pub NoMask : Attrs F R → Type 0
  NoMask a = (a.pattern ≡ string "") × (a.mask ≡ string "")

  abbrev pub NoText : Attrs F R → Type 0
  NoText a = (a.min_length ≡ pos 0) × (a.max_length ≡ pos 0) × NoMask a

  -- Lengths that are not negative and in order, where 0 is no length.
  abbrev pub HasLengths : Attrs F R → Type 0
  HasLengths a =
      (m n : ℕ) × (a.min_length ≡ pos m) × (a.max_length ≡ pos n) × ((m ≡ 0) ⊎ (n ≡ 0) ⊎ (m ≤ n))

  -- What a property of a kind may hold. `leaf` says that it has no nested properties, and `inner`
  -- that they are as they must be.
  unfoldable pub OfKind : Floats F → Bool → Type 0 → Type 0 → Attrs F R → Kind → Type 0
  OfKind fl parse leaf inner a skipped = Unit
  OfKind fl parse leaf inner a virtual_client = Unit
  OfKind fl parse leaf inner a int =
      HasDefault F number a.default × IsRange fl a.min a.max × NoText a × NoRef a × leaf
  OfKind fl parse leaf inner a float =
      HasDefault F number a.default × IsRange fl a.min a.max × NoText a × NoRef a × leaf
  OfKind fl parse leaf inner a boolean =
      HasDefault Bool bool a.default × NoRange a × NoText a × NoRef a × leaf
  OfKind fl parse leaf inner a text =
      HasDefault String string a.default × HasLengths a × NoRange a × NoRef a × leaf
  OfKind fl parse leaf inner a date = HasDefault ⊥ no_value a.default × NoText a × NoRef a × leaf
  OfKind fl parse leaf inner a ref =
      HasDefault String string a.default × (a.store ≢ "") × NoRange a × NoText a
  OfKind fl parse leaf inner a ref_list =
      HasDefault (Values F) array a.default × (a.store ≢ "") × NoRange a × NoText a
  OfKind fl parse leaf inner a virtual = (a.default ≡ null) × NoRange a × NoText a × NoRef a × leaf
  OfKind fl parse leaf inner a object_kind = (parse ≡ true) × NoRange a × NoText a × NoRef a × inner
  OfKind fl parse leaf inner a object_list = (parse ≡ true) × NoRange a × NoMask a × NoRef a × inner
  OfKind fl parse leaf inner a virtual_ref_list =
      (a.default ≡ null)
      × (a.store ≢ "")
      × ((a.foreign_key ≢ "") ⊎ (a.query ≢ null))
      × NoRange a
      × NoText a
      × leaf
  OfKind fl parse leaf inner a comments = NoRange a × NoText a
  OfKind fl parse leaf inner a unknown = ⊥

-- The properties of a store, each of a known type. An object has no objects in it, so `parse` is
-- false for the properties of one.
unfoldable mutual
  pub IsTyped : {F R : Type 0} → Floats F → Bool → Property F R → Type 0
  IsTyped fl parse (property a ps) =
      OfKind fl parse (ps ≡ end) (AllTyped fl false ps) a (kind_of a.typ)

  pub AllTyped : {F R : Type 0} → Floats F → Bool → Properties F R → Type 0
  AllTyped fl parse end = Unit
  AllTyped fl parse (entry k p ps) = IsTyped fl parse p × AllTyped fl parse ps
