-- ===== src/Registry/Laws.antt =====
-- Registration, and what readers see, in whatever order Go ranges over the map.
use blank_sr.Base.{
  ◌≡◌, refl, ◌∙◌, String, some, List, [], ◌∷◌, ◌++◌, map, ◌==◌, if◌then◌else◌, string_eq, nat_eq,
  count, arith, Option-cases, inl, inr,
}
use blank_sr.Base.Map.{lookup, lookup-insert, lookup-nil}
use blank_sr.Registry.{
  Service, Services, Registry, of_type, fs_address, first_address, get_all, get_all_from, register,
  default_port, type_file_store,
}
use blank_sr.Registry.Orders.{Ranges}

-- A new service goes to the end of the list of its type, under the port that was given or, for
-- the three types that have one, the default; the other types keep their lists, and each handler
-- of `OnCreate` is called once, with that service.
pub register_appends :
    (typ addr port conn js : String) (r : Registry) (k : String)
    → let s : Service = record {
      typ = typ;
      address = addr;
      port = default_port typ port;
      common_js = js;
      conn_id = conn;
    } in
      (of_type k (register typ addr port conn js r).0.services
        ≡ (if typ == k then of_type k r.services ++ (s ∷ []) else of_type k r.services))
      × ((register typ addr port conn js r).1 ≡ map (λ h. (h, s)) r.create_handlers)
unfolding register
register_appends typ addr port conn js r k = (
  ground (
    arith,
    lookup-insert typ k
        (of_type typ r.services
          ++ (record {
            typ = typ;
            address = addr;
            port = default_port typ port;
            common_js = js;
            conn_id = conn;
          }
              ∷ []))
        r.services,
  ),
  refl,
)

lookup-get_all_from :
    (order : List String) (m all : Services) (k : String)
    → lookup k (get_all_from order m all)
      ≡ (if count k order == 0 then lookup k all else some (of_type k m))
unfolding get_all_from nat_eq
lookup-get_all_from [] m all k = refl
lookup-get_all_from (j ∷ order) m all k =
    lookup-get_all_from order m _ k ∙ ground (arith, lookup-insert j k (of_type j m) all)

-- `GetAll` returns a map with the same entries, in any order of ranging over the keys.
pub lookup-get_all :
    (order : List String) (m : Services)
    → Ranges order m
    → (k : String) → lookup k (get_all order m) ≡ lookup k m
unfolding get_all nat_eq
lookup-get_all order m v k = elim (Option-cases (lookup k m)) [
  | inl e ↦
      ground (arith, lookup-get_all_from order m [] k, lookup-nil {V = List Service} k, v.keys k e)
  | inr (ss, e) ↦ ground (arith, lookup-get_all_from order m [] k, v.covers k (λ n. ground arith))
]

fs_address-from :
    (order : List String) (m : Services)
    → fs_address order m
      ≡ (if count type_file_store order == 0 then "" else first_address (of_type type_file_store m))
unfolding fs_address nat_eq
fs_address-from [] m = refl
fs_address-from (k ∷ order) m = ground (arith, fs_address-from order m)

first_address-nil : first_address [] ≡ ""
unfolding first_address
first_address-nil = refl

-- `FSAddress` is the address and the port of the first service in the list of file stores, joined
-- by a colon, and empty if there is no file store, in any order of ranging over the keys.
pub fs_address_lem :
    (order : List String) (m : Services)
    → Ranges order m
    → fs_address order m ≡ first_address (of_type type_file_store m)
unfolding nat_eq
fs_address_lem order m v = elim (Option-cases (lookup type_file_store m)) [
  | inl e ↦ fs_address-from order m ∙ ground (arith, v.keys type_file_store e, first_address-nil)
  | inr (ss, e) ↦
      fs_address-from order m ∙ ground (arith, v.covers type_file_store (λ n. ground arith))
]
