-- ===== src/Ca/Tests.antt =====
-- A toy cryptography in which a certificate is its validity and its name, and the theorems at it.
use Prim.Native.Nat.{ℕ, zero, suc, ◌-◌, ◌+◌}
use mathlib.Core.Bool.{true≢false}
use mathlib.Core.Path.{◌≡◌, refl, sym, ap, ap₂, ◌∙◌}
use mathlib.Core.Option.{Option, none, some}
use mathlib.Core.List.{List, [], ◌∷◌, ◌++◌}
use aitori.Base.{arith, Bool, true, false, if◌then◌else◌, drop, some-injective, ◌≢◌}
use aitori.Base.Dict.{lookup}
use aitori.Base.Text.{Str, codes, str_eq, str_eq_refl}
use aitori.ClientCfg.Targets.{join_path}
use aitori.AppResolve.Paths.{clean}
use aitori.Leaf.{leaf_for_name, leaf_host}
use aitori.Leaf.Cached.{IsGiven}
use aitori.Ca.{
  Ca, Options, cert_path, cert_type, key_path, key_type, leaf_valid, load, load_or_create,
  mint_leaf, subject_key_id, with_defaults,
}
use aitori.Ca.Primitives.{Crypto, Disk, Refusals, ca_validity, read_file}
use aitori.Ca.Restart.{
  IsLawful, IsReadable, Makes, ca_of, load_or_create-again, load_or_create-mismatched,
}
use aitori.Ca.Minted.{IsIssuing, leaf_for_name-minted}

first_of : List Str → Str
first_of [] = []
first_of (s ∷ l) = s

head_of : Str → ℕ
head_of [] = 0
head_of (n ∷ s) = n

second_of : Str → ℕ
unfolding head_of
second_of [] = 0
second_of (n ∷ s) = head_of s

parse_toy_key : Str → Option ℕ
parse_toy_key [] = none
parse_toy_key (k ∷ s) = some k

decode_toy : Str → Option (Str × Str)
decode_toy [] = none
decode_toy (zero ∷ s) = some (cert_type, s)
decode_toy (suc n ∷ s) = some (key_type, s)

abbrev toy : Crypto
toy = record {
  Key = ℕ;
  Cert = Str;
  Random = ℕ;
  generate_key = λ r. some r;
  serial = λ r. some r;
  create = λ r t p k. some (t.not_before ∷ t.not_after ∷ first_of (t.ip_addresses ++ t.dns_names));
  parse_certificate = λ der. some der;
  raw = λ c. c;
  not_before = head_of;
  not_after = second_of;
  verify_hostname = λ c h. str_eq (drop 2 c) h;
  marshal_pkcs1 = λ k. k ∷ [];
  parse_pkcs1 = parse_toy_key;
  parse_pkcs8 = λ s. none;
  marshal_public = λ k. some (k ∷ []);
  sha1 = λ s. s;
  encode_pem = λ type s. (if str_eq type cert_type then 0 else 1) ∷ s;
  decode_pem = decode_toy;
  is_ip = λ s. false;
}

toy-IsLawful : IsLawful toy
unfolding decode_toy parse_toy_key str_eq
toy-IsLawful = record { cert_block = λ b. refl; key_block = λ b. refl; parse-marshal = λ k. refl }

abbrev no_options : Options
no_options = record { organization = []; common_name = [] }

abbrev home : Str
home = codes "/d"

-- Only the key cannot be written, or nothing is refused.
abbrev refusing : Bool → Refusals
refusing b = record {
  no_dir = λ p. false;
  unreadable = λ p. false;
  unwritable = λ p. if str_eq p (key_path home) then b else false;
}

paths-apart : cert_path home ≢ key_path home
unfolding cert_path key_path join_path clean str_eq
paths-apart e =
    let same : str_eq (cert_path home) (key_path home) ≡ true =
      ap (λ p. str_eq p (key_path home)) e ∙ str_eq_refl (key_path home) in
    true≢false (sym same)

refusing-IsReadable : (b : Bool) → IsReadable (refusing b) home
refusing-IsReadable b = record {
  dir_made = refl;
  cert_read = refl;
  key_read = refl;
  apart = paths-apart;
}

toy-Makes : (rand now : ℕ) → Makes toy (with_defaults no_options) rand now
unfolding subject_key_id first_of
toy-Makes rand now = record {
  key = rand;
  key_id = rand ∷ [];
  serial = rand;
  der = (now - 3600) ∷ (now + ca_validity) ∷ [];
  cert = (now - 3600) ∷ (now + ca_validity) ∷ [];
  generated = refl;
  identified = refl;
  numbered = refl;
  signed = refl;
  parsed = refl;
}

load_or_create-again_example :
    (ca : Ca toy) × ((d' : Disk) × ((load_or_create toy home no_options 5 9000 (refusing false) []
          ≡ (some ca, d'))
        × ((rand' : ℕ) (now' : ℕ)
            → load_or_create toy home no_options rand' now' (refusing false) d' ≡ (some ca, d'))))
unfolding cert_path key_path join_path clean str_eq
load_or_create-again_example =
    load_or_create-again toy toy-IsLawful home no_options (refusing false)
      (refusing-IsReadable false) 5 9000 [] refl refl (toy-Makes 5 9000)

-- The key 7 is on the disk, and its certificate is gone.
abbrev lone_key : Disk
lone_key = (key_path home, toy.encode_pem key_type (toy.marshal_pkcs1 7)) ∷ []

load_or_create-mismatched_example :
    ((load_or_create toy home no_options 5 9000 (refusing true) lone_key).0 ≡ none)
    × ((rand' : ℕ) (now' : ℕ)
        → (ca : Ca toy) × (((load_or_create toy home no_options rand' now'
                (refusing true)
                (load_or_create toy home no_options 5 9000 (refusing true) lone_key).1).0
              ≡ some ca)
            × ((ca.cert ≡ (toy-Makes 5 9000).cert) × ((ca.key ≡ 7) × (ca.key ≢ 5)))))
unfolding toy-Makes cert_path key_path join_path clean str_eq load read_file lookup subject_key_id
load_or_create-mismatched_example =
    load_or_create-mismatched toy toy-IsLawful home no_options (refusing true)
      (refusing-IsReadable true) 5 9000 lone_key (toy-Makes 5 9000) 7 (7 ∷ []) refl refl refl refl
      refl (λ e. omega (arith, e))

toy-IsIssuing : IsIssuing toy (λ host. Unit)
unfolding first_of head_of second_of
toy-IsIssuing = record {
  times = λ rand t ca der cert s p.
      let made = some-injective _ _ s ∙ some-injective _ _ p in
      (ap head_of (sym made), ap second_of (sym made));
  names = λ rand t ca der host cert n s p i d.
      let made = some-injective _ _ s ∙ some-injective _ _ p in
      ap (λ c. str_eq (drop 2 c) host) (sym made)
      ∙ ap (λ l. str_eq (first_of l) host) (ap₂ ◌++◌ i d)
      ∙ str_eq_refl host;
}

abbrev toy_ca : Ca toy
toy_ca = ca_of toy (codes "aitori") [] [] 5 (5 ∷ [])

abbrev no_port : Str → Option (Str × Str)
no_port s = none

leaf_for_name-toy :
    IsGiven
      (leaf_valid toy)
      9000
      (leaf_host no_port (leaf_valid toy) (mint_leaf toy toy_ca 3) (codes "a.com"))
      (leaf_for_name no_port (leaf_valid toy) (mint_leaf toy toy_ca 3) 9000 (codes "a.com") [])
leaf_for_name-toy =
    leaf_for_name-minted toy (λ host. Unit) toy-IsIssuing toy_ca 3 no_port 9000 (codes "a.com") []
      tt
