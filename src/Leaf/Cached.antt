-- ===== src/Leaf/Cached.antt =====
-- What the cache of leaf certificates gives.
use mathlib.Core.Path.{◌≡◌, refl}
use mathlib.Core.Logic.{inl, inr}
use mathlib.Core.Option.{Option, none, some}
use mathlib.Core.List.{List}
use aitori.Base.{ℕ, Bool, true, Bool-cases, is_empty}
use aitori.Base.Dict.{lookup, lookup-put_self}
use aitori.Base.Text.{Str}
use aitori.Leaf.{cached, leaf_for_name, leaf_host, minted}

module _ {Cert : Type 0} (leaf_valid : ℕ → Cert → Str → Bool) where
  -- What was given is valid now, and it is what the cache holds from now on.
  abbrev pub IsGiven : ℕ → Str → Option Cert × List (Str × Cert) → Type 0
  IsGiven now name (none, leafs) = Unit
  IsGiven now name (some cert, leafs) =
      (leaf_valid now cert name ≡ true) × (lookup name leafs ≡ some cert)

module _ {Cert : Type 0} (split_host_port : Str → Option (Str × Str))
    (leaf_valid : ℕ → Cert → Str → Bool) (mint_leaf : ℕ → Str → Option Cert) (IsName : Str → Type 0)
    (mints : (now : ℕ) (host : Str) (cert : Cert)
      → IsName host
      → mint_leaf now host ≡ some cert
      → leaf_valid now cert host ≡ true) where
  minted-IsGiven :
      (now : ℕ) (name : Str) (leafs : List (Str × Cert)) (o : Option Cert)
      → IsName name
      → mint_leaf now name ≡ o
      → IsGiven leaf_valid now name (minted split_host_port leaf_valid mint_leaf name leafs o)
  unfolding minted
  minted-IsGiven now name leafs none n e = tt
  minted-IsGiven now name leafs (some cert) n e =
      (mints now name cert n e, lookup-put_self name cert leafs)

  cached-IsGiven :
      (now : ℕ) (name : Str) (leafs : List (Str × Cert)) (o : Option Cert)
      → IsName name
      → lookup name leafs ≡ o
      → IsGiven leaf_valid now name (cached split_host_port leaf_valid mint_leaf now name leafs o)
  unfolding cached
  cached-IsGiven now name leafs none n e = minted-IsGiven now name leafs (mint_leaf now name) n refl
  cached-IsGiven now name leafs (some cert) n e = elim (Bool-cases (leaf_valid now cert name)) [
    | inl v ↦ rw v (v, e)
    | inr v ↦ rw v (minted-IsGiven now name leafs (mint_leaf now name) n refl)
  ]

  -- A certificate that is given for a name is valid for it at that time, whether it was in the cache
  -- or not, and it is in the cache afterwards: where certificates minted for the name are valid.
  pub leaf_for_name-IsGiven :
      (now : ℕ) (host : Str) (leafs : List (Str × Cert))
      → IsName (leaf_host split_host_port leaf_valid mint_leaf host)
      → IsGiven leaf_valid now
          (leaf_host split_host_port leaf_valid mint_leaf host)
          (leaf_for_name split_host_port leaf_valid mint_leaf now host leafs)
  unfolding leaf_for_name
  leaf_for_name-IsGiven now host leafs n =
      let name = leaf_host split_host_port leaf_valid mint_leaf host in
      elim (Bool-cases (is_empty name)) [
        | inl e ↦ rw e tt
        | inr e ↦ rw e (cached-IsGiven now name leafs (lookup name leafs) n refl)
      ]
