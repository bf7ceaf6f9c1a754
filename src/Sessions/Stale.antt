-- ===== src/Sessions/Stale.antt =====
-- Sessions that a caller still holds after they were deleted.
use blank_sr.Base.{ℕ, ◌≡◌, ◌∙◌, refl, ap, String, none, some, arith, string_eq, nat_eq}
use blank_sr.Base.Map.{lookup, erase, lookup-erase}
use blank_sr.Database.{Database, IsLawful}
use blank_sr.Sessions.Data.{Session, Store, Codec, bucket, copy_session}
use blank_sr.Sessions.Invariant.{IsFaithful, Kept, Kept-trans, copy_session-Kept}
use blank_sr.Sessions.Operations.{session_updated-fields}
use blank_sr.Sessions.Records.{stored_db, write_self}
use blank_sr.Sessions.Store.{write, delete_session}
use blank_sr.Sessions.Subscriptions.{subscribed, add_subscription}
use blank_sr.Values.{Value}

module _ (D : Database) (L : IsLawful D) {F : Type 0} (C : Codec F D.Bytes)
    (faithful : IsFaithful C) (p : ℕ) (id uri : String) (extra : Value F) where
  abbrev S : Type 0
  S = Store F D.Db

  abbrev subscribed' : S → Session F
  subscribed' t = record (t.heap p) { connections = subscribed id uri extra (t.heap p).connections }

  add_subscription-fields :
      (t : S)
      → ((add_subscription D C p id uri extra t).sessions ≡ t.sessions)
        × ((add_subscription D C p id uri extra t).db ≡ stored_db D C (subscribed' t) t.db)
  unfolding add_subscription
  add_subscription-fields t =
      let u =
        session_updated-fields D L C faithful p
          (record t { heap = write t.heap p (subscribed' t) }) in
      (u.0, u.2 ∙ ap (λ z. stored_db D C z t.db) (write_self t.heap p (subscribed' t)))

  delete_session-fields :
      (s : S)
      → ((delete_session D C p s).sessions ≡ erase (s.heap p).api_key s.sessions)
        × (((delete_session D C p s).heap p).api_key ≡ (s.heap p).api_key)
        × Kept (s.heap p) ((delete_session D C p s).heap p)
  unfolding delete_session
  delete_session-fields s = (
    refl,
    ground arith,
    record {
      api_key = ground arith;
      access_token = ground arith;
      ttl = ground arith;
      user = λ u. ground arith;
    },
  )

  -- For a key that the database takes, where the encoder gives back what it encoded, a call of
  -- `AddSubscription` on a session that was deleted after the caller looked it up writes the session
  -- into the database again: what stands there under its key is decoded to a session with its key,
  -- token, TTL and, where that is a string, user, although the memory has no session under its key.
  pub add_subscription-delete_session :
      (s : S)
      → L.IsKey (s.heap p).api_key
      → let t = add_subscription D C p id uri extra (delete_session D C p s) in
        (lookup (s.heap p).api_key t.sessions ≡ none)
        × ((b : D.Bytes) × (y : Session F) × (D.get bucket (s.heap p).api_key t.db ≡ some b)
            × (C.unmarshal b ≡ some y)
            × Kept (s.heap p) y)
  add_subscription-delete_session s key =
      let u = delete_session D C p s in
      let (sessions, db) = add_subscription-fields u in
      let (erased, own, kept_own) = delete_session-fields s in
      let x = subscribed' u in
      let same : Kept (s.heap p) x = record {
        api_key = kept_own.api_key;
        access_token = kept_own.access_token;
        ttl = kept_own.ttl;
        user = kept_own.user;
      } in
      let (y, decoded, kept, dated) = faithful.decodes (copy_session x) in
      (
        rw (sessions, erased)
            (ground (arith, lookup-erase (s.heap p).api_key (s.heap p).api_key s.sessions)),
        (
          C.marshal (copy_session x),
          y,
          rw db (
              L.get-save bucket x.api_key (C.marshal (copy_session x)) u.db bucket
                (s.heap p).api_key L.sessions (rw own key)
              ∙ ground (arith, own)),
          decoded,
          Kept-trans (s.heap p) x y same
              (Kept-trans x (copy_session x) y (copy_session-Kept x) kept),
        ),
      )
