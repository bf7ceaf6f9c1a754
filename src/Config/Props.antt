-- ===== src/Config/Props.antt =====
-- config/config.go: properties. What process.go neither reads nor writes of a property is in
-- `rest`. A floating-point number is an `F`, with the comparisons of `Floats`.
use blank_sr.Base.{String, Bool, Option, List, [], ◌∷◌, ◌≡◌, refl, ap}
use blank_sr.Base.Int.{ℤ}
use blank_sr.Base.Map.{Map}
use blank_sr.Values.{Value}

-- `float64`: zero, and `<`.
pub record Floats (F : Type 0) : Type 0 where
  pub zero : F
  pub lt : F → F → Bool
  pub eq : F → F → Bool

pub record Access (F : Type 0) : Type 0 where
  pub condition : Value F
  pub permissions : String
  pub role : String

-- The fields of `Prop` but `Props`. A nil `Access` is `none`.
pub record Attrs (F R : Type 0) : Type 0 where
  pub access : Option (List (Access F))
  pub configurable : Bool
  pub default : Value F
  pub disabled : Value F
  pub display : String
  pub extra_query : Value F
  pub foreign_key : String
  pub form_group : String
  pub form_order : ℤ
  pub form_tab : String
  pub hidden : Value F
  pub label : String
  pub load : String
  pub mask : Value F
  pub max : Value F
  pub max_length : ℤ
  pub min : Value F
  pub min_length : ℤ
  pub name : String
  pub opposite_prop : String
  pub pattern : Value F
  pub placeholder : String
  pub populate_in : Value F
  pub query : Value F
  pub read_only : Bool
  pub required : Value F
  pub search_by : List (Value F)
  pub store : String
  pub typ : String
  pub rest : R

mutual
  -- `Prop`, with the nested properties of `Props`; nil is empty there.
  pub data Property (F R : Type 0) : Type 0 where
    property : Attrs F R → Properties F R → Property F R

  pub data Properties (F R : Type 0) : Type 0 where
    end : Properties F R
    entry : String → Property F R → Properties F R → Properties F R

module _ {F R : Type 0} where
  abbrev pub attrs : Property F R → Attrs F R
  attrs (property a ps) = a

  abbrev pub nested : Property F R → Properties F R
  nested (property a ps) = ps

  unfoldable pub to_map : Properties F R → Map String (Property F R)
  to_map end = []
  to_map (entry k p ps) = (k, p) ∷ to_map ps

  unfoldable pub from_map : Map String (Property F R) → Properties F R
  from_map [] = end
  from_map ((k, p) ∷ m) = entry k p (from_map m)

  pub to_map-from_map : (m : Map String (Property F R)) → to_map (from_map m) ≡ m
  unfolding to_map from_map
  to_map-from_map [] = refl
  to_map-from_map ((k, p) ∷ m) = ap (λ t. (k, p) ∷ t) (to_map-from_map m)
