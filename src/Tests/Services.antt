-- ===== src/Tests/Services.antt =====
-- registry/registry.go: a connection with two services, and another one with one.
use blank_sr.Base.{
  ◌==◌, if◌then◌else◌, suc, ◌≡◌, ◌≢◌, ◌⊎◌, String, List, [], ◌∷◌, map, arith, string_eq, nat_eq,
}
use blank_sr.Base.Map.{lookup}
use blank_sr.Registry.{Service, Services, Registry, of_type, type_cron, type_file_store, unregister}
use blank_sr.Registry.Closing.{total, others, Without, unregister_one}
use blank_sr.Registry.Orders.{Ranges}

abbrev service : String → String → Service
service typ conn = record {
  typ = typ;
  address = "h";
  port = "8082";
  common_js = "";
  conn_id = conn;
}

abbrev services : Services
services =
    ("fileStore", service "fileStore" "alice" ∷ service "fileStore" "c2" ∷ [])
    ∷ ("cron", service "cron" "alice" ∷ [])
    ∷ []

abbrev pub registry : Registry
registry = record {
  services = services;
  create_handlers = 1 ∷ [];
  update_handlers = [];
  delete_handlers = 7 ∷ [];
}

abbrev pub order : List String
order = "cron" ∷ "fileStore" ∷ []

cron_other : type_cron ≢ type_file_store
cron_other e = cc

pub order-Ranges : Ranges order services
unfolding lookup
order-Ranges = record {
  covers = λ k h. ground arith;
  keys = λ k h. ground (arith, cron_other);
  nodup = λ k. ground (arith, cron_other);
}

unregister_one_example :
    ((total "alice" order services ≡ 0) × (unregister order "alice" registry ≡ (registry, [])))
    ⊎ ((s : Service) × (s.conn_id ≡ "alice")
        × ((unregister order "alice" registry).1 ≡ map (λ h. (h, s)) (7 ∷ []))
        × ((typ : String) × (rest : List Service) × Without s (of_type typ services) rest
            × ((k : String)
                → of_type k (unregister order "alice" registry).0.services
                  ≡ (if typ == k then rest else of_type k services)))
        × (suc (total "alice" order (unregister order "alice" registry).0.services)
            ≡ total "alice" order services)
        × ((k : String)
            → others "alice" (of_type k (unregister order "alice" registry).0.services)
              ≡ others "alice" (of_type k services)))
unregister_one_example = unregister_one order "alice" registry order-Ranges
