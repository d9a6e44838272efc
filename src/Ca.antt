-- ===== src/Ca.antt =====
-- internal/ca/ca.go: making the device's certificate authority, keeping it on disk, and minting leaf
-- certificates; the cache of leaf certificates is in Leaf. `Primitives` is what it uses of
-- the libraries; `Restart` says what a second start finds, `Minted` what the cache gives when it mints with this code.
--
-- crypto/rsa, crypto/x509 and encoding/pem are a parameter (`Crypto`), and so is what rand.Reader
-- gives. Times are in seconds. The disk is a map from paths to bytes; which paths cannot be read or
-- written and which directories cannot be made are a parameter, and a write that fails leaves the
-- file as it was. The modes of files are not in the model.
pub mod Primitives
pub mod Restart
pub mod Minted
mod Tests
use Prim.Native.Nat.{ℕ, ◌+◌, ◌-◌}
use mathlib.Core.Option.{Option, none, some}
use mathlib.Core.List.{List, [], ◌∷◌}
use aitori.Base.{Bool, true, false, ◌||◌, ltb, if◌then◌else◌, ◌>>=◌}
use aitori.Base.Text.{Str, codes, str_eq, or_default}
use aitori.ClientCfg.Targets.{join_path}
use aitori.Ca.Primitives.{
  ca_validity, leaf_validity, Template, Crypto, Disk, Refusals, read_file, write_file, cert_sign,
  digital_signature, key_encipherment, server_auth, itself, issuer,
}

-- `Options`.
pub record Options : Type 0 where
  pub organization : Str
  pub common_name : Str

-- The defaults that `LoadOrCreate` fills in.
abbrev pub with_defaults : Options → Options
with_defaults o = record {
  organization = or_default o.organization (codes "aitori");
  common_name = or_default o.common_name (codes "aitori Device CA");
}

-- `CertPath`, and the path of the key.
unfoldable pub cert_path : Str → Str
unfolding join_path
cert_path dir = join_path dir (codes "ca.pem")

unfoldable pub key_path : Str → Str
unfolding join_path
key_path dir = join_path dir (codes "ca.key")

abbrev pub cert_type : Str
cert_type = codes "CERTIFICATE"

abbrev pub key_type : Str
key_type = codes "RSA PRIVATE KEY"

module _ (C : Crypto) where
  -- `CA`, less the cache.
  pub record Ca : Type 0 where
    pub org : Str
    pub cert : C.Cert
    pub key : C.Key
    pub cert_pem : Str
    pub key_id : Str

  -- `tls.Certificate`, as `mintLeaf` fills it in.
  pub record TlsCert : Type 0 where
    pub certificate : List Str
    pub private_key : C.Key
    pub leaf : Option C.Cert

  -- `subjectKeyID`.
  unfoldable pub subject_key_id : C.Key → Option Str
  subject_key_id key = do der ← C.marshal_public key; some (C.sha1 der)

  -- The template of `newCA`, at the time `now`.
  abbrev pub ca_template : Options → ℕ → ℕ → Str → Template
  ca_template o now serial key_id = record {
    serial = serial;
    common_name = o.common_name;
    organization = o.organization;
    subject_key_id = key_id;
    usages = cert_sign ∷ digital_signature ∷ key_encipherment ∷ [];
    is_ca = true;
    not_before = now - 3600;
    not_after = now + ca_validity;
    ip_addresses = [];
    dns_names = [];
  }

  -- `newCA`.
  unfoldable pub new_ca : Options → C.Random → ℕ → Option Ca
  unfolding subject_key_id
  new_ca o rand now = do
    key ← C.generate_key rand
    key_id ← subject_key_id key
    serial ← C.serial rand
    der ← C.create rand (ca_template o now serial key_id) itself key
    cert ← C.parse_certificate der
    some (record {
      org = o.organization;
      cert = cert;
      key = key;
      cert_pem = C.encode_pem cert_type der;
      key_id = key_id;
    })

  -- The block of a certificate, which is of the right type.
  unfoldable pub typed : Option (Str × Str) → Option Str
  typed none = none
  typed (some (type, bytes)) = if str_eq type cert_type then some bytes else none

  -- The key in a block of any type: PKCS#1, or else RSA in PKCS#8.
  unfoldable pub fallback : Option (Option C.Key) → Option C.Key
  fallback none = none
  fallback (some k) = k

  unfoldable pub parse_key : Str → Option C.Key → Option C.Key
  unfolding fallback
  parse_key bytes none = fallback (C.parse_pkcs8 bytes)
  parse_key bytes (some key) = some key

  -- `fromPEM`.
  unfoldable pub from_pem : Str → Str → Str → Option Ca
  unfolding typed parse_key subject_key_id
  from_pem cert_pem key_pem org = do
    bytes ← typed (C.decode_pem cert_pem)
    cert ← C.parse_certificate bytes
    (type, key_bytes) ← C.decode_pem key_pem
    key ← parse_key key_bytes (C.parse_pkcs1 key_bytes)
    key_id ← subject_key_id key
    some (record { org = org; cert = cert; key = key; cert_pem = cert_pem; key_id = key_id })

  -- The pair on disk, if both files can be read and hold an authority.
  unfoldable pub load : Str → Options → Refusals → Disk → Option Ca
  unfolding read_file from_pem
  load dir o bad d = do
    cert_pem ← read_file bad (cert_path dir) d
    key_pem ← read_file bad (key_path dir) d
    from_pem cert_pem key_pem o.organization

  unfoldable pub key_pem_of : Ca → Str
  key_pem_of ca = C.encode_pem key_type (C.marshal_pkcs1 ca.key)

  unfoldable pub saved_key : Ca → Bool × Disk → Option Ca × Disk
  saved_key ca (true, d) = (some ca, d)
  saved_key ca (false, d) = (none, d)

  unfoldable pub saved_cert : Str → Refusals → Ca → Bool × Disk → Option Ca × Disk
  unfolding saved_key key_pem_of write_file
  saved_cert dir bad ca (true, d) = saved_key ca (write_file bad (key_path dir) (key_pem_of ca) d)
  saved_cert dir bad ca (false, d) = (none, d)

  unfoldable pub created : Str → Refusals → Disk → Option Ca → Option Ca × Disk
  unfolding saved_cert write_file
  created dir bad d none = (none, d)
  created dir bad d (some ca) = saved_cert dir bad ca (write_file bad (cert_path dir) ca.cert_pem d)

  unfoldable pub loaded :
      Str → Options → C.Random → ℕ → Refusals → Disk → Option Ca → Option Ca × Disk
  unfolding created new_ca
  loaded dir o rand now bad d none = created dir bad d (new_ca o rand now)
  loaded dir o rand now bad d (some ca) = (some ca, d)

  -- `LoadOrCreate`: the authority, unless it failed, and the disk after it.
  unfoldable pub load_or_create : Str → Options → C.Random → ℕ → Refusals → Disk → Option Ca × Disk
  unfolding loaded load
  load_or_create dir opts rand now bad d =
      let o = with_defaults opts in
      let result = loaded dir o rand now bad d (load dir o bad d) in
      if bad.no_dir dir then (none, d) else result

  -- The template of `mintLeaf`.
  abbrev pub leaf_template : Ca → ℕ → ℕ → Str → Template
  leaf_template ca now serial host = record {
    serial = serial;
    common_name = host;
    organization = ca.org;
    subject_key_id = ca.key_id;
    usages = key_encipherment ∷ digital_signature ∷ server_auth ∷ [];
    is_ca = false;
    not_before = now - leaf_validity;
    not_after = now + leaf_validity;
    ip_addresses = if C.is_ip host then host ∷ [] else [];
    dns_names = if C.is_ip host then [] else host ∷ [];
  }

  -- `mintLeaf`.
  unfoldable pub mint_leaf : Ca → C.Random → ℕ → Str → Option TlsCert
  mint_leaf ca rand now host = do
    serial ← C.serial rand
    der ← C.create rand (leaf_template ca now serial host) (issuer ca.cert) ca.key
    leaf ← C.parse_certificate der
    some (record { certificate = der ∷ C.raw ca.cert ∷ []; private_key = ca.key; leaf = some leaf })

  unfoldable pub valid_at : ℕ → Str → Option C.Cert → Bool
  valid_at now host none = false
  valid_at now host (some leaf) =
      if ltb now (C.not_before leaf) || ltb (C.not_after leaf) now
      then false
      else C.verify_hostname leaf host

  -- `leafValid`, at the time `now`.
  unfoldable pub leaf_valid : ℕ → TlsCert → Str → Bool
  unfolding valid_at
  leaf_valid now cert host = valid_at now host cert.leaf

-- The protocols that `TLSConfig` offers.
unfoldable pub next_protos : Bool → List Str
next_protos force_http11 =
    if force_http11 then codes "http/1.1" ∷ [] else codes "h2" ∷ codes "http/1.1" ∷ []
