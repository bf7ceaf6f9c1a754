-- ===== src/Config/Validate/References.antt =====
-- What the properties of a store refer to.
use blank_sr.Base.{
  ◌≡◌, ◌≢◌, ◌⊎◌, refl, String, Bool, true, false, ◌&&◌, Option, none, some, if◌then◌else◌,
  string_eq, arith,
}
use blank_sr.Base.Map.{lookup}
use blank_sr.Config.Names.{prop_ref, prop_ref_list, prop_virtual_ref_list}
use blank_sr.Config.Props.{Property, Properties, end, entry, attrs, nested}
use blank_sr.Config.Stores.{Store, Stores}
use blank_sr.Config.Validate.{is_ref, ref_exists, sub_refs_exist, refs_exist}

is_ref_cases :
    (t : String)
    → is_ref t ≡ true
    → (t ≡ prop_ref) ⊎ ((t ≡ prop_ref_list) ⊎ (t ≡ prop_virtual_ref_list))
is_ref_cases t h = ground arith

is_ref_of :
    (t : String)
    → (t ≡ prop_ref) ⊎ ((t ≡ prop_ref_list) ⊎ (t ≡ prop_virtual_ref_list))
    → is_ref t ≡ true
is_ref_of t h = ground arith

module _ {F R : Type 0} where
  -- A property stands among others, under some name.
  pub data Among (p : Property F R) : Properties F R → Type 0 where
    first : (k : String) (ps : Properties F R) → Among p (entry k p ps)
    later :
        (k : String) (q : Property F R) (ps : Properties F R) → Among p ps → Among p (entry k q ps)

  -- A property of one of the types of references names a store.
  abbrev pub Names : String → Property F R → Type 0
  Names n p =
      (((attrs p).typ ≡ prop_ref)
        ⊎ (((attrs p).typ ≡ prop_ref_list) ⊎ ((attrs p).typ ≡ prop_virtual_ref_list)))
      × ((attrs p).store ≡ n)

  -- A property of a store, or a property nested in one, names a store.
  pub data RefersTo (n : String) (ps : Properties F R) : Type 0 where
    direct : (p : Property F R) → Among p ps → Names n p → RefersTo n ps
    within : (p q : Property F R) → Among p ps → Among q (nested p) → Names n q → RefersTo n ps

  -- One of the stores that are named is not there.
  abbrev pub Dangles : Stores F R → Properties F R → Type 0
  Dangles conf ps = (n : String) × RefersTo n ps × (lookup n conf ≡ none)

  later-RefersTo :
      (n k : String) (q : Property F R) (ps : Properties F R)
      → RefersTo n ps
      → RefersTo n (entry k q ps)
  later-RefersTo n k q ps (direct p a h) = direct p (later k q ps a) h
  later-RefersTo n k q ps (within p r a b h) = within p r (later k q ps a) b h

  module _ (conf : Stores F R) where
    -- A reference that fails names a store that is not there.
    lost_ref :
        (p : Property F R)
        → ref_exists conf (attrs p) ≡ false
        → Names (attrs p).store p × (lookup (attrs p).store conf ≡ none)
    lost_ref p h = go (is_ref (attrs p).typ) (lookup (attrs p).store conf) refl refl h
      where
        go :
            (b : Bool) (o : Option (Store F R))
            → is_ref (attrs p).typ ≡ b
            → lookup (attrs p).store conf ≡ o
            → (if b then elim o [ none ↦ false | some s ↦ true ] else true) ≡ false
            → Names (attrs p).store p × (lookup (attrs p).store conf ≡ none)
        go true none r e g = ((is_ref_cases (attrs p).typ r, refl), e)
        go true (some s) r e g = cc
        go false o r e g = cc

    kept_ref :
        (n : String) (p : Property F R)
        → ref_exists conf (attrs p) ≡ true
        → Names n p
        → lookup n conf ≢ none
    kept_ref n p h (kinds, is) missing = ground (arith, is_ref_of (attrs p).typ kinds)

    sub_lost :
        (ps : Properties F R)
        → sub_refs_exist conf ps ≡ false
        → (q : Property F R) × Among q ps × (ref_exists conf (attrs q) ≡ false)
    unfolding sub_refs_exist
    sub_lost end h = cc
    sub_lost (entry k p ps) h = go (sub_lost ps) (ref_exists conf (attrs p)) refl h
      where
        go :
            (sub_refs_exist conf ps ≡ false
              → (q : Property F R) × Among q ps × (ref_exists conf (attrs q) ≡ false))
            → (b : Bool) → ref_exists conf (attrs p) ≡ b
            → (b && sub_refs_exist conf ps) ≡ false
            → (q : Property F R) × Among q (entry k p ps) × (ref_exists conf (attrs q) ≡ false)
        go rest false e g = (p, first k ps, e)
        go rest true e g = let (q, at, lost) = rest g in (q, later k p ps at, lost)

    pub refs_lost :
        (ps : Properties F R)
        → refs_exist conf ps ≡ false
        → (n : String) × RefersTo n ps × (lookup n conf ≡ none)
    unfolding refs_exist
    refs_lost end h = cc
    refs_lost (entry k p ps) h =
        go (refs_lost ps) (ref_exists conf (attrs p)) (sub_refs_exist conf (nested p)) refl refl h
      where
        go :
            (refs_exist conf ps ≡ false → (n : String) × RefersTo n ps × (lookup n conf ≡ none))
            → (b c : Bool) → ref_exists conf (attrs p) ≡ b
            → sub_refs_exist conf (nested p) ≡ c
            → ((b && c) && refs_exist conf ps) ≡ false
            → (n : String) × RefersTo n (entry k p ps) × (lookup n conf ≡ none)
        go rest false c e f g =
            let (names, lost) = lost_ref p e in ((attrs p).store, direct p (first k ps) names, lost)
        go rest true false e f g =
            let (q, at, fails) = sub_lost (nested p) f in
            let (names, lost) = lost_ref q fails in
            ((attrs q).store, within p q (first k ps) at names, lost)
        go rest true true e f g =
            let (n, refers, lost) = rest g in (n, later-RefersTo n k p ps refers, lost)

    sub_kept :
        (q : Property F R) (ps : Properties F R)
        → sub_refs_exist conf ps ≡ true
        → Among q ps
        → ref_exists conf (attrs q) ≡ true
    unfolding sub_refs_exist
    sub_kept q _ h (first k ps) = ground arith
    sub_kept q _ h (later k p ps at) = sub_kept q ps (ground arith) at

    both_kept :
        (p : Property F R) (ps : Properties F R)
        → refs_exist conf ps ≡ true
        → Among p ps
        → (ref_exists conf (attrs p) ≡ true) × (sub_refs_exist conf (nested p) ≡ true)
    unfolding refs_exist
    both_kept p _ h (first k ps) = (ground arith, ground arith)
    both_kept p _ h (later k q ps at) = both_kept p ps (ground arith) at

    pub refs_kept :
        (n : String) (ps : Properties F R)
        → refs_exist conf ps ≡ true
        → RefersTo n ps
        → lookup n conf ≢ none
    refs_kept n ps h (direct p at names) = kept_ref n p (both_kept p ps h at).0 names
    refs_kept n ps h (within p q at inner names) =
        kept_ref n q (sub_kept q (nested p) (both_kept p ps h at).1 inner) names
