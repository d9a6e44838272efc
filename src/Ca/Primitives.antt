-- ===== src/Ca/Primitives.antt =====
-- What internal/ca/ca.go uses of crypto/rsa, crypto/x509 and encoding/pem, and of the file system.
use Prim.Native.Nat.{ℕ, ◌*◌}
use mathlib.Core.Option.{Option, none}
use mathlib.Core.List.{List}
use aitori.Base.{Bool, true, false, if◌then◌else◌}
use aitori.Base.Dict.{lookup, put}
use aitori.Base.Text.{Str}

-- `caValidity` and `leafValidity`.
abbrev pub ca_validity : ℕ
ca_validity = 10 * 365 * 24 * 3600

abbrev pub leaf_validity : ℕ
leaf_validity = 7 * 24 * 3600

-- A key usage of a template.
pub data Usage : Type 0 where
  cert_sign : Usage
  digital_signature : Usage
  key_encipherment : Usage
  server_auth : Usage

-- The fields of `x509.Certificate` that the code fills in before it creates a certificate.
pub record Template : Type 0 where
  pub serial : ℕ
  pub common_name : Str
  pub organization : Str
  pub subject_key_id : Str
  pub usages : List Usage
  pub is_ca : Bool
  pub not_before : ℕ
  pub not_after : ℕ
  pub ip_addresses : List Str
  pub dns_names : List Str

-- The parent that `x509.CreateCertificate` is given: the template itself, or a certificate.
pub data Parent (Cert : Type 0) : Type 0 where
  itself : Parent Cert
  issuer : Cert → Parent Cert

-- Keys, certificates and what rand.Reader gives, with the functions on them. `create` takes one key,
-- whose public half the certificate is for and whose private half signs it. `parse_pkcs8` gives
-- `some none` for a key that is not RSA.
pub record Crypto : Type 1 where
  pub Key : Type 0
  pub Cert : Type 0
  pub Random : Type 0
  pub generate_key : Random → Option Key
  pub serial : Random → Option ℕ
  pub create : Random → Template → Parent Cert → Key → Option Str
  pub parse_certificate : Str → Option Cert
  pub raw : Cert → Str
  pub not_before : Cert → ℕ
  pub not_after : Cert → ℕ
  pub verify_hostname : Cert → Str → Bool
  pub marshal_pkcs1 : Key → Str
  pub parse_pkcs1 : Str → Option Key
  pub parse_pkcs8 : Str → Option (Option Key)
  pub marshal_public : Key → Option Str
  pub sha1 : Str → Str
  pub encode_pem : Str → Str → Str
  pub decode_pem : Str → Option (Str × Str)
  pub is_ip : Str → Bool

abbrev pub Disk : Type 0
Disk = List (Str × Str)

-- What the file system refuses.
pub record Refusals : Type 0 where
  pub no_dir : Str → Bool
  pub unreadable : Str → Bool
  pub unwritable : Str → Bool

-- `os.ReadFile`
unfoldable pub read_file : Refusals → Str → Disk → Option Str
unfolding lookup
read_file bad path d = if bad.unreadable path then none else lookup path d

-- `os.WriteFile`: whether it succeeded. It fails where the file cannot be opened for writing, and then
-- leaves it; a write that breaks off is not in the model.
unfoldable pub write_file : Refusals → Str → Str → Disk → Bool × Disk
unfolding put
write_file bad path bytes d = if bad.unwritable path then (false, d) else (true, put path bytes d)
