-- ===== src/Ca/Minted.antt =====
-- The cache of leaf certificates of internal/ca/ca.go with the code that mints them.
use Prim.Native.Nat.{ℕ, ◌≤◌}
use mathlib.Core.Path.{◌≡◌, refl, sym}
use mathlib.Core.Option.{Option, none, some}
use mathlib.Core.List.{List, [], ◌∷◌}
use aitori.Base.{true, if◌then◌else◌, arith, Option-cases, inl, inr, ◌>>=◌, some-injective}
use aitori.Base.Text.{Str}
use aitori.Leaf.{leaf_for_name, leaf_host}
use aitori.Leaf.Cached.{IsGiven, leaf_for_name-IsGiven}
use aitori.Ca.{Ca, TlsCert, leaf_template, leaf_valid, mint_leaf, valid_at}
use aitori.Ca.Primitives.{Crypto, Template, issuer}

-- What is relied on: the certificate that is parsed from what was created for a template is valid as
-- long as the template says, and for the one name that it has. `IsName` are the names for which this
-- holds; the text `[::1]`, for one, is no name.
pub record IsIssuing (C : Crypto) (IsName : Str → Type 0) : Type 0 where
  pub times :
      (rand : C.Random) (t : Template) (ca : Ca C) (der : Str) (cert : C.Cert)
      → C.create rand t (issuer ca.cert) ca.key ≡ some der
      → C.parse_certificate der ≡ some cert
      → (C.not_before cert ≡ t.not_before) × (C.not_after cert ≡ t.not_after)
  pub names :
      (rand : C.Random) (t : Template) (ca : Ca C) (der host : Str) (cert : C.Cert)
      → IsName host
      → C.create rand t (issuer ca.cert) ca.key ≡ some der
      → C.parse_certificate der ≡ some cert
      → t.ip_addresses ≡ (if C.is_ip host then host ∷ [] else [])
      → t.dns_names ≡ (if C.is_ip host then [] else host ∷ [])
      → C.verify_hostname cert host ≡ true

module _ (C : Crypto) (IsName : Str → Type 0) (issuing : IsIssuing C IsName) (ca : Ca C)
    (rand : C.Random) where
  in_window :
      (now : ℕ) (host : Str) (leaf : C.Cert)
      → C.not_before leaf ≤ now
      → now ≤ C.not_after leaf
      → C.verify_hostname leaf host ≡ true
      → valid_at C now host (some leaf) ≡ true
  unfolding valid_at
  in_window now host leaf b a v = ground arith

  -- A certificate that has just been minted is valid.
  pub mint_leaf-leaf_valid :
      (now : ℕ) (host : Str) (cert : TlsCert C)
      → IsName host
      → mint_leaf C ca rand now host ≡ some cert
      → leaf_valid C now cert host ≡ true
  unfolding mint_leaf leaf_valid
  mint_leaf-leaf_valid now host cert n h = elim (Option-cases (C.serial rand)) [
    | inl e ↦ absurd (cc (rw e at h))
    | inr (serial, e) ↦
        signed serial (C.create rand (leaf_template C ca now serial host) (issuer ca.cert) ca.key)
          refl (rw e at h)
  ]
    where
      parsed :
          (serial : ℕ) (der : Str) (o : Option C.Cert)
          → C.create rand (leaf_template C ca now serial host) (issuer ca.cert) ca.key ≡ some der
          → C.parse_certificate der ≡ o
          → (o >>= λ leaf. some (record {
            certificate = der ∷ C.raw ca.cert ∷ [];
            private_key = ca.key;
            leaf = some leaf;
          }))
            ≡ some cert
          → valid_at C now host cert.leaf ≡ true
      parsed serial der none s p k = cc
      parsed serial der (some leaf) s p k =
          let t = leaf_template C ca now serial host in
          let (b, a) = issuing.times rand t ca der leaf s p in
          let v = issuing.names rand t ca der host leaf n s p refl refl in
          rw (sym (some-injective _ _ k))
            (in_window now host leaf (omega (arith, b)) (omega (arith, a)) v)

      signed :
          (serial : ℕ) (o : Option Str)
          → C.create rand (leaf_template C ca now serial host) (issuer ca.cert) ca.key ≡ o
          → (o >>= λ der.
              (C.parse_certificate der >>= λ leaf. some (record {
                certificate = der ∷ C.raw ca.cert ∷ [];
                private_key = ca.key;
                leaf = some leaf;
              })))
            ≡ some cert
          → valid_at C now host cert.leaf ≡ true
      signed serial none s k = cc
      signed serial (some der) s k = parsed serial der (C.parse_certificate der) s refl k

  -- What `LeafForName` gives for a name, from any cache, is a certificate that is valid for the name
  -- at that time, and it is in the cache afterwards: the one in the cache if that is still valid,
  -- or else one that was minted.
  pub leaf_for_name-minted :
      (split_host_port : Str → Option (Str × Str)) (now : ℕ) (host : Str)
      (leafs : List (Str × TlsCert C))
      → IsName (leaf_host split_host_port (leaf_valid C) (mint_leaf C ca rand) host)
      → IsGiven
          (leaf_valid C)
          now
          (leaf_host split_host_port (leaf_valid C) (mint_leaf C ca rand) host)
          (leaf_for_name split_host_port (leaf_valid C) (mint_leaf C ca rand) now host leafs)
  leaf_for_name-minted split_host_port now host leafs n =
      leaf_for_name-IsGiven split_host_port (leaf_valid C) (mint_leaf C ca rand) IsName
        mint_leaf-leaf_valid now host leafs n
