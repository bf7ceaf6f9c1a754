-- ===== src/Registry/Closing.antt =====
-- `Unregister` when a connection closes.
use blank_sr.Base.{
  ◌++◌, ap, Bool, true, false, ℕ, suc, ◌+◌, ◌≤◌, ◌≡◌, ◌⊎◌, refl, String, Option, none, some, List,
  [], ◌∷◌, map, ◌==◌, if◌then◌else◌, string_eq, nat_eq, count, count_if, arith, inl, inr,
}
use blank_sr.Base.Map.{insert, lookup-insert}
use blank_sr.Registry.{Service, Services, Registry, of_type, take_conn, unregister_from, unregister}
use blank_sr.Registry.Orders.{Ranges}

-- How many services of a list belong to a connection.
abbrev pub conns : String → List Service → ℕ
conns id = count_if (λ s. s.conn_id == id)

-- How many services of the map belong to a connection, type by type in the given order.
abbrev pub total : String → List String → Services → ℕ
total id [] m = 0
total id (k ∷ order) m = conns id (of_type k m) + total id order m

-- The services of the other connections.
abbrev pub others : String → List Service → List Service
others id [] = []
others id (s ∷ ss) = let rest = others id ss in if s.conn_id == id then rest else s ∷ rest

-- A service that stands in a list, and the list without it.
abbrev pub Without : Service → List Service → List Service → Type 0
Without s ss rest =
    (before : List Service) × (after : List Service) × (ss ≡ before ++ (s ∷ after))
    × (rest ≡ before ++ after)

Without-cons :
    (t s : Service) (ss rest : List Service) → Without t ss rest → Without t (s ∷ ss) (s ∷ rest)
Without-cons t s ss rest (before, after, e, f) =
    (s ∷ before, after, ap (λ l. s ∷ l) e, ap (λ l. s ∷ l) f)

-- `take_conn` fails where the connection has no service; else it takes its first one out.
abbrev Takes : String → List Service → Option (Service × List Service) → Type 0
Takes id ss none = conns id ss ≡ 0
Takes id ss (some (s, rest)) =
    (s.conn_id ≡ id)
    × (suc (conns id rest) ≡ conns id ss)
    × (others id rest ≡ others id ss)
    × Without s ss rest

Takes-cons :
    (id : String) (s : Service) (ss : List Service) (r : Option (Service × List Service))
    → Takes id ss r
    → Takes id (s ∷ ss) (
        if s.conn_id == id
        then some (s, ss)
        else elim r [ none ↦ none | some (t, ts) ↦ some (t, s ∷ ts) ])
Takes-cons id s ss r h = go (s.conn_id == id) refl r h
  where
    go :
        (same : Bool)
        → (s.conn_id == id) ≡ same
        → (r : Option (Service × List Service)) → Takes id ss r
        → Takes id (s ∷ ss) (
            if same then some (s, ss) else elim r [ none ↦ none | some (t, ts) ↦ some (t, s ∷ ts) ])
    go true e r h = (ground arith, ground arith, ground arith, ([], ss, refl, refl))
    go false e none h = ground arith
    go false e (some (t, ts)) (c, n, o, w) =
        (c, ground arith, ground arith, Without-cons t s ss ts w)

take_conn-Takes : (id : String) (ss : List Service) → Takes id ss (take_conn id ss)
unfolding take_conn
take_conn-Takes id [] = refl
take_conn-Takes id (s ∷ ss) = Takes-cons id s ss (take_conn id ss) (take_conn-Takes id ss)

-- What the loops of `unregister` come to: no service of the connection, or one of them gone.
abbrev Removes : String → List String → Services → Option (Service × Services) → Type 0
Removes id order m none = total id order m ≡ 0
Removes id order m (some (s, m')) =
    (typ : String) × (rest : List Service) × (s.conn_id ≡ id)
    × (1 ≤ count typ order)
    × (suc (conns id rest) ≡ conns id (of_type typ m))
    × (others id rest ≡ others id (of_type typ m))
    × Without s (of_type typ m) rest
    × ((k : String) → of_type k m' ≡ (if typ == k then rest else of_type k m))

Removes-cons :
    (id typ : String) (order : List String) (m : Services) (t : Option (Service × List Service))
    (r : Option (Service × Services))
    → Takes id (of_type typ m) t
    → Removes id order m r
    → Removes id (typ ∷ order) m (elim t [ none ↦ r | some (s, ss) ↦ some (s, insert typ ss m) ])
Removes-cons id typ order m none none h k = omega arith
Removes-cons id typ order m none (some (s, m')) h (j, rest, e, c, n, o, w, l) =
    (j, rest, e, omega arith, n, o, w, l)
Removes-cons id typ order m (some (s, ss)) r (e, n, o, w) k =
    (typ, ss, e, ground arith, n, o, w, λ j. ground (arith, lookup-insert typ j ss m))

unregister_from-Removes :
    (order : List String) (id : String) (m : Services)
    → Removes id order m (unregister_from order id m)
unfolding unregister_from
unregister_from-Removes [] id m = refl
unregister_from-Removes (typ ∷ order) id m =
    Removes-cons id typ order m (take_conn id (of_type typ m)) (unregister_from order id m)
      (take_conn-Takes id (of_type typ m)) (unregister_from-Removes order id m)

total-changed :
    (id typ : String) (rest : List Service) (order : List String) (m m' : Services)
    → suc (conns id rest) ≡ conns id (of_type typ m)
    → ((k : String) → of_type k m' ≡ (if typ == k then rest else of_type k m))
    → total id order m' + count typ order ≡ total id order m
total-changed id typ rest [] m m' n l = omega arith
total-changed id typ rest (k ∷ order) m m' n l =
    rw (l k) (ground (arith, total-changed id typ rest order m m' n l))

unregister-eq :
    (order : List String) (id : String) (r : Registry) (o : Option (Service × Services))
    → unregister_from order id r.services ≡ o
    → unregister order id r ≡ elim o [
      | none ↦ (r, [])
      | some (s, m) ↦ (record r { services = m }, map (λ h. (h, s)) r.delete_handlers)
    ]
unfolding unregister
unregister-eq order id r o e = rw (e, unregister)

-- `Unregister` does nothing if the connection has no service. Otherwise it removes exactly one of
-- its services, however many it has, leaves those of all other connections as they are, and calls
-- each handler of `OnDelete` once, with the service that stood in the list of its type and went;
-- the lists of the other types stay. The order in which Go ranges over the map decides only which
-- one goes.
pub unregister_one :
    (order : List String) (id : String) (r : Registry)
    → Ranges order r.services
    → ((total id order r.services ≡ 0) × (unregister order id r ≡ (r, [])))
      ⊎ ((s : Service) × (s.conn_id ≡ id)
          × ((unregister order id r).1 ≡ map (λ h. (h, s)) r.delete_handlers)
          × ((typ : String) × (rest : List Service) × Without s (of_type typ r.services) rest
              × ((k : String)
                  → of_type k (unregister order id r).0.services
                    ≡ (if typ == k then rest else of_type k r.services)))
          × (suc (total id order (unregister order id r).0.services) ≡ total id order r.services)
          × ((k : String)
              → others id (of_type k (unregister order id r).0.services)
                ≡ others id (of_type k r.services)))
unregister_one order id r v =
    go (unregister_from order id r.services) refl (unregister_from-Removes order id r.services)
  where
    go :
        (o : Option (Service × Services))
        → unregister_from order id r.services ≡ o
        → Removes id order r.services o
        → ((total id order r.services ≡ 0) × (unregister order id r ≡ (r, [])))
          ⊎ ((s : Service) × (s.conn_id ≡ id)
              × ((unregister order id r).1 ≡ map (λ h. (h, s)) r.delete_handlers)
              × ((typ : String) × (rest : List Service) × Without s (of_type typ r.services) rest
                  × ((k : String)
                      → of_type k (unregister order id r).0.services
                        ≡ (if typ == k then rest else of_type k r.services)))
              × (suc (total id order (unregister order id r).0.services)
                  ≡ total id order r.services)
              × ((k : String)
                  → others id (of_type k (unregister order id r).0.services)
                    ≡ others id (of_type k r.services)))
    go none e h = inl (h, unregister-eq order id r none e)
    go (some (s, m)) e (typ, rest, own, c, n, o, w, l) =
        rw (unregister-eq order id r (some (s, m)) e) (
          inr (
            s,
            own,
            refl,
            (typ, rest, w, l),
            omega (arith, total-changed id typ rest order r.services m n l, v.nodup typ),
            λ k. rw (l k) (ground (arith, o)),
          ))

-- One service of a connection is gone from the list of its type and the other lists stay, or the
-- connection has no service and the registry stays.
abbrev pub Closes : String → List String → Registry → Registry → Type 0
Closes id order r t =
    ((total id order r.services ≡ 0) × (t ≡ r))
    ⊎ ((s : Service) × (typ : String) × (rest : List Service) × (s.conn_id ≡ id)
        × Without s (of_type typ r.services) rest
        × (suc (total id order t.services) ≡ total id order r.services)
        × ((k : String) → of_type k t.services ≡ (if typ == k then rest else of_type k r.services)))

pub unregister-Closes :
    (order : List String) (id : String) (r : Registry)
    → Ranges order r.services
    → Closes id order r (unregister order id r).0
unregister-Closes order id r v = elim (unregister_one order id r v) [
  | inl (n, e) ↦ inl (n, ap (λ o. o.0) e)
  | inr (s, own, calls, (typ, rest, w, l), n, same) ↦ inr (s, typ, rest, own, w, n, l)
]
