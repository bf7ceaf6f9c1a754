-- ===== src/Sessions/Restart.antt =====
-- What `loadSessions` brings back.
use blank_sr.Base.{
  ℕ, ◌≡◌, ◌<◌, String, none, some, [], ◌∷◌, ap, ◌∙◌, sym, subst, arith, ◌==◌, if◌then◌else◌,
  string_eq, nat_eq, ltb, false,
}
use mathlib.Core.Option.{some-injective}
use blank_sr.Base.Map.{Map, lookup, lookup-insert, lookup-nil}
use blank_sr.Database.{Database, IsLawful, values, NodupKeys}
use blank_sr.Sessions.Data.{Session, Store, Codec}
use blank_sr.Sessions.Invariant.{IsFaithful}
use blank_sr.Sessions.Loading.{reset, Readable, lookup-cons, load_each-cons, load_each-nil}
use blank_sr.Sessions.Records.{write_self, write_ne}
use blank_sr.Sessions.Store.{load_one, load_each}

module _ (D : Database) (L : IsLawful D) {F : Type 0} (C : Codec F D.Bytes)
    (faithful : IsFaithful C) where
  abbrev S : Type 0
  S = Store F D.Db

  module _ (now : ℕ) (y : Session F) (t : S) where
    abbrev t' : S
    t' = load_one D C now (some y) t

    lookup-load_one :
        (j : String)
        → lookup j t'.sessions ≡ (
            if ltb y.ttl now
            then lookup j t.sessions
            else if y.api_key == j
            then some t.fresh
            else lookup j t.sessions)
    unfolding load_one
    lookup-load_one j = ground (arith, lookup-insert y.api_key j t.fresh t.sessions)

    heap-load_one : (q : ℕ) → q < t.fresh → (t'.heap q ≡ t.heap q) × (q < t'.fresh)
    unfolding load_one
    heap-load_one q h = ground (arith, write_ne t.heap t.fresh q (reset y))

    fresh-load_one : ltb y.ttl now ≡ false → (t'.heap t.fresh ≡ reset y) × (t.fresh < t'.fresh)
    unfolding load_one
    fresh-load_one h = (rw h (write_self t.heap t.fresh (reset y)), rw h (omega arith))

  heap-load_each :
      (now : ℕ) (m : Map String D.Bytes) (t : S) (q : ℕ)
      → Readable D L C faithful m
      → q < t.fresh
      → (load_each D C now (values m) t).heap q ≡ t.heap q
  heap-load_each now [] t q r h = rw (load_each-nil D L C faithful now t)
  heap-load_each now ((k, b) ∷ m) t q r h =
      let (y, e, own, key) = r.0 in
      rw (load_each-cons D L C faithful now b (values m) t y e) (
        heap-load_each now m (load_one D C now (some y) t) q r.1 (heap-load_one now y t q h).1
        ∙ (heap-load_one now y t q h).0)

  pub absent-load_each :
      (now : ℕ) (m : Map String D.Bytes) (t : S) (k : String)
      → Readable D L C faithful m
      → lookup k m ≡ none
      → lookup k (load_each D C now (values m) t).sessions ≡ lookup k t.sessions
  absent-load_each now [] t k r h = rw (load_each-nil D L C faithful now t)
  absent-load_each now ((j, b) ∷ m) t k r h =
      let (y, e, own, key) = r.0 in
      rw (load_each-cons D L C faithful now b (values m) t y e) (
        absent-load_each now m (load_one D C now (some y) t) k r.1
          (ground (arith, lookup-cons j b m k))
        ∙ ground (arith, lookup-load_one now y t k, lookup-cons j b m k, own))

  not_nil : (k : String) (b : D.Bytes) → lookup k [] ≡ some b → ⊥
  not_nil k b h = cc (lookup-nil {V = D.Bytes} k)

  -- What becomes of the record of a session.
  abbrev pub Loaded : String → Session F → ℕ → S → Type 0
  Loaded k y now t =
      (y.ttl < now → lookup k t.sessions ≡ none)
      × (¬ (y.ttl < now) → (p : ℕ) × (lookup k t.sessions ≡ some p) × (t.heap p ≡ reset y))

  own-Loaded :
      (now : ℕ) (m : Map String D.Bytes) (t : S) (k : String) (y : Session F)
      → Readable D L C faithful m
      → lookup k m ≡ none
      → lookup k t.sessions ≡ none
      → y.api_key ≡ k
      → Loaded k y now (load_each D C now (values m) (load_one D C now (some y) t))
  own-Loaded now m t k y r only free own =
      let rest = absent-load_each now m (load_one D C now (some y) t) k r only in
      (
        λ old. rest ∙ ground (arith, lookup-load_one now y t k),
        λ young.
            let young' : ltb y.ttl now ≡ false = ground arith in
            let (stays, below) = fresh-load_one now y t young' in
            (
              t.fresh,
              rest ∙ ground (arith, lookup-load_one now y t k),
              heap-load_each now m (load_one D C now (some y) t) t.fresh r below ∙ stays,
            ),
      )

  pub Loaded-load_each :
      (now : ℕ) (m : Map String D.Bytes) (t : S) (k : String) (b : D.Bytes) (y : Session F)
      → NodupKeys m
      → Readable D L C faithful m
      → lookup k t.sessions ≡ none
      → lookup k m ≡ some b
      → C.unmarshal b ≡ some y
      → Loaded k y now (load_each D C now (values m) t)
  Loaded-load_each now [] t k b y d r free at e = absurd (not_nil k b at)
  Loaded-load_each now ((j, c) ∷ m) t k b y d r free at e =
      let (z, f, own, key) = r.0 in
      rw (load_each-cons D L C faithful now c (values m) t z f) (elim (string_eq.dec j k) [
        | yes same ↦
            let z-y : z ≡ y =
              some-injective z y
                (sym f ∙ ap C.unmarshal (ground (arith, lookup-cons j c m k)) ∙ e) in
            subst (λ x. Loaded k y now (load_each D C now (values m) (load_one D C now (some x) t)))
              (sym z-y)
              (own-Loaded now m t k y r.1 (subst (λ i. lookup i m ≡ none) same d.0) free
                (ap (λ x. x.api_key) (sym z-y) ∙ own ∙ same))
        | no ne ↦
            Loaded-load_each now m (load_one D C now (some z) t) k b y d.1 r.1
              (ground (arith, lookup-load_one now z t k, own)) (ground (arith, lookup-cons j c m k))
              e
      ])
