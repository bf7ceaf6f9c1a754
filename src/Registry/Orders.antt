-- ===== src/Registry/Orders.antt =====
-- Orders in which Go may range over a map: each key once.
use blank_sr.Base.{◌≤◌, ◌≡◌, ◌≢◌, String, none, List, count, string_eq}
use blank_sr.Base.Map.{lookup}
use blank_sr.Registry.{Services}

pub record Ranges (order : List String) (m : Services) : Type 0 where
  pub covers : (k : String) → lookup k m ≢ none → 1 ≤ count k order
  pub keys : (k : String) → lookup k m ≡ none → count k order ≡ 0
  pub nodup : (k : String) → count k order ≤ 1
