-- ===== src/Sessions/Keys.antt =====
-- sessionstore/sessionstore.go: the RSA keys with which tokens are signed.
-- The formats of keys, their generator and the file system are parameters. `log.Fatal` and a panic
-- end the process.
use blank_sr.Base.{◌≡◌, refl, Bool, true, Option, none, some, arith, if◌then◌else◌}

-- crypto/rsa, crypto/x509, encoding/pem and the JWT library.
pub record Formats (Public Private Bytes : Type 0) : Type 0 where
  pub public : Private → Public
  pub write_public : Private → Bytes
  pub write_private : Private → Bytes
  pub read_public : Bytes → Option Public
  pub read_private : Bytes → Option Private

pub data Place : Type 0 where
  missing directory file denied : Place

-- The directory of the keys, the contents of its two files, and whether files can be written.
pub record Files (Bytes : Type 0) : Type 0 where
  pub place : Place
  pub writable : Bool
  pub jwt_pub : Option Bytes
  pub jwt_key : Option Bytes

-- The package's variables, with `none` for nil.
pub record Keys (Public Private Bytes : Type 0) : Type 0 where
  pub public_key : Option Public
  pub private_key : Option Private
  pub public_key_bytes : Option Bytes

pub data Started (Public Private Bytes : Type 0) : Type 0 where
  ready : Keys Public Private Bytes → Files Bytes → Started Public Private Bytes
  ended : Started Public Private Bytes

module _ {Public Private Bytes : Type 0} (R : Formats Public Private Bytes) where
  abbrev St : Type 0
  St = Started Public Private Bytes

  -- `loadRSAKeys`
  unfoldable pub load_rsa_keys : Files Bytes → Option (Bytes × Bytes)
  load_rsa_keys f = elim f.jwt_pub [
    | none ↦ none
    | some public ↦ elim f.jwt_key [ none ↦ none | some private ↦ some (public, private) ]
  ]

  -- The branch of `initRSAKeys` in which the keys were loaded.
  unfoldable pub install : Bytes → Bytes → Files Bytes → St
  install public private f = elim (R.read_public public) [
    | none ↦ ended
    | some p ↦ elim (R.read_private private) [
      | none ↦ ended
      | some k ↦
          ready
            (record { public_key = some p; private_key = some k; public_key_bytes = some public }) f
    ]
  ]

  -- `generateRSAKeys` with the key that the generator gave, which is nil if it failed.
  unfoldable pub generate_rsa_keys : Option Private → Keys Public Private Bytes → Files Bytes → St
  generate_rsa_keys none s f = ended
  generate_rsa_keys (some k) s f =
      if f.writable
      then (elim (R.read_public (R.write_public k)) [
        | none ↦ ended
        | some p ↦
            ready (record s { public_key = some p; public_key_bytes = some (R.write_public k) })
              (record f { jwt_pub = some (R.write_public k); jwt_key = some (R.write_private k) })
      ])
      else ended

  -- The check of the directory, and the keys that are made in it.
  unfoldable pub make_keys : Place → Option Private → Keys Public Private Bytes → Files Bytes → St
  unfolding generate_rsa_keys
  make_keys missing k s f = generate_rsa_keys k s (record f { place = directory })
  make_keys directory k s f = generate_rsa_keys k s f
  make_keys file k s f = ended
  make_keys denied k s f = ended

  -- `initRSAKeys`
  unfoldable pub init_rsa_keys : Option Private → Keys Public Private Bytes → Files Bytes → St
  unfolding load_rsa_keys install make_keys
  init_rsa_keys k s f = elim (load_rsa_keys f) [
    | none ↦ make_keys f.place k s f
    | some (public, private) ↦ install public private f
  ]

  abbrev pub unset : Keys Public Private Bytes
  unset = record { public_key = none; private_key = none; public_key_bytes = none }

  -- If keys that are written can be read again, a start without key files, in a directory where
  -- files can be written, makes a key, writes both files and sets the public key, but leaves the
  -- private key unset; the next start reads the files and has both keys.
  pub second_start_signs :
      (k : Private) (other : Option Private) (f : Files Bytes)
      → R.read_public (R.write_public k) ≡ some (R.public k)
      → R.read_private (R.write_private k) ≡ some k
      → f.place ≡ directory
      → f.writable ≡ true
      → f.jwt_pub ≡ none
      → (s : Keys Public Private Bytes) × (t : Keys Public Private Bytes) × (g : Files Bytes)
        × (init_rsa_keys (some k) unset f ≡ ready s g)
        × (s.private_key ≡ none)
        × (s.public_key ≡ some (R.public k))
        × (init_rsa_keys other unset g ≡ ready t g)
        × (t.private_key ≡ some k)
        × (t.public_key ≡ some (R.public k))
  unfolding init_rsa_keys
  second_start_signs k other f public private there writable fresh = (
    record unset { public_key = some (R.public k); public_key_bytes = some (R.write_public k) },
    record {
      public_key = some (R.public k);
      private_key = some k;
      public_key_bytes = some (R.write_public k);
    },
    record f { jwt_pub = some (R.write_public k); jwt_key = some (R.write_private k) },
    ground (arith, public, there, writable, fresh),
    refl,
    refl,
    ground (arith, public, private),
    refl,
    refl,
  )
