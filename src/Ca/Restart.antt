-- ===== src/Ca/Restart.antt =====
-- What a second `LoadOrCreate` of internal/ca/ca.go finds on the disk that the first one left.
use Prim.Native.Nat.{ℕ}
use mathlib.Core.Path.{◌≡◌, refl, sym, ap, ◌∙◌}
use mathlib.Core.Option.{none, some}
use aitori.Base.{true, false, Option-cases, inl, inr, ◌≢◌}
use aitori.Base.Dict.{lookup, put, lookup-put_self, lookup-put_other}
use aitori.Base.Text.{Str, str_eq_refl}
use aitori.Ca.{
  Ca, ca_template, Options, cert_path, cert_type, created, from_pem, key_path, key_pem_of, key_type,
  load, load_or_create, loaded, new_ca, parse_key, saved_cert, saved_key, subject_key_id, typed,
  with_defaults,
}
use aitori.Ca.Primitives.{Crypto, Disk, itself, Refusals, read_file, write_file}

-- What is relied on: a PEM block and a PKCS#1 key are read back as they were written.
pub record IsLawful (C : Crypto) : Type 0 where
  pub cert_block : (b : Str) → C.decode_pem (C.encode_pem cert_type b) ≡ some (cert_type, b)
  pub key_block : (b : Str) → C.decode_pem (C.encode_pem key_type b) ≡ some (key_type, b)
  pub parse-marshal : (key : C.Key) → C.parse_pkcs1 (C.marshal_pkcs1 key) ≡ some key

-- The two files can be read, and the directory is there or can be made.
pub record IsReadable (bad : Refusals) (dir : Str) : Type 0 where
  pub dir_made : bad.no_dir dir ≡ false
  pub cert_read : bad.unreadable (cert_path dir) ≡ false
  pub key_read : bad.unreadable (key_path dir) ≡ false
  pub apart : cert_path dir ≢ key_path dir

-- The calls of `newCA` succeed, with these results.
pub record Makes (C : Crypto) (o : Options) (rand : C.Random) (now : ℕ) : Type 0 where
  pub key : C.Key
  pub key_id : Str
  pub serial : ℕ
  pub der : Str
  pub cert : C.Cert
  pub generated : C.generate_key rand ≡ some key
  pub identified : subject_key_id C key ≡ some key_id
  pub numbered : C.serial rand ≡ some serial
  pub signed : C.create rand (ca_template C o now serial key_id) itself key ≡ some der
  pub parsed : C.parse_certificate der ≡ some cert

-- The authority of a certificate and a key.
abbrev pub ca_of : (C : Crypto) → Str → Str → C.Cert → C.Key → Str → Ca C
ca_of C org der cert key key_id = record {
  org = org;
  cert = cert;
  key = key;
  cert_pem = C.encode_pem cert_type der;
  key_id = key_id;
}

-- The authority that `newCA` makes.
abbrev pub fresh :
    {C : Crypto} {o : Options} {rand : C.Random} {now : ℕ} → Makes C o rand now → Ca C
fresh {C} {o} m = ca_of C o.organization m.der m.cert m.key m.key_id

new_ca-fresh :
    (C : Crypto) (o : Options) (rand : C.Random) (now : ℕ) (m : Makes C o rand now)
    → new_ca C o rand now ≡ some (fresh m)
unfolding new_ca
new_ca-fresh C o rand now m =
    rw m.generated (rw m.identified (rw m.numbered (rw m.signed (rw m.parsed refl))))

module _ (C : Crypto) (lawful : IsLawful C) where
  -- A certificate and a key that were encoded are an authority, whether or not they belong together.
  from_pem-encoded :
      (der org key_id : Str) (cert : C.Cert) (key : C.Key)
      → C.parse_certificate der ≡ some cert
      → subject_key_id C key ≡ some key_id
      → from_pem C (C.encode_pem cert_type der) (C.encode_pem key_type (C.marshal_pkcs1 key)) org
        ≡ some (ca_of C org der cert key key_id)
  unfolding from_pem typed parse_key
  from_pem-encoded der org key_id cert key e i = rw (lawful.cert_block der) (
      rw (str_eq_refl cert_type) (
        rw e (
          rw (lawful.key_block (C.marshal_pkcs1 key)) (rw (lawful.parse-marshal key) (rw i refl)))))

  module _ (dir : Str) (opts : Options) (bad : Refusals) (reads : IsReadable bad dir) where
    -- What the two files hold is what is loaded.
    load-files :
        (d : Disk) (cert_pem key_pem : Str)
        → lookup (cert_path dir) d ≡ some cert_pem
        → lookup (key_path dir) d ≡ some key_pem
        → load C dir (with_defaults opts) bad d
          ≡ from_pem C cert_pem key_pem (with_defaults opts).organization
    unfolding load read_file
    load-files d cert_pem key_pem e k = rw reads.cert_read (rw e (rw reads.key_read (rw k refl)))

    load_or_create-loads :
        (rand : C.Random) (now : ℕ) (d : Disk) (ca : Ca C)
        → load C dir (with_defaults opts) bad d ≡ some ca
        → load_or_create C dir opts rand now bad d ≡ (some ca, d)
    unfolding load_or_create loaded
    load_or_create-loads rand now d ca e = rw reads.dir_made (rw e refl)

    -- The disk with a new authority on it.
    abbrev with_ca : Ca C → Disk → Disk
    with_ca ca d = put (key_path dir) (key_pem_of C ca) (put (cert_path dir) ca.cert_pem d)

    load_or_create-creates :
        (rand : C.Random) (now : ℕ) (d : Disk) (m : Makes C (with_defaults opts) rand now)
        → bad.unwritable (cert_path dir) ≡ false
        → bad.unwritable (key_path dir) ≡ false
        → load C dir (with_defaults opts) bad d ≡ none
        → load_or_create C dir opts rand now bad d ≡ (some (fresh m), with_ca (fresh m) d)
    unfolding load_or_create loaded created saved_cert saved_key write_file
    load_or_create-creates rand now d m wc wk e =
        rw reads.dir_made
          (rw e (rw (new_ca-fresh C (with_defaults opts) rand now m) (rw wc (rw wk refl))))

    with_ca-loads :
        (rand : C.Random) (now : ℕ) (d : Disk) (m : Makes C (with_defaults opts) rand now)
        → load C dir (with_defaults opts) bad (with_ca (fresh m) d) ≡ some (fresh m)
    unfolding key_pem_of
    with_ca-loads rand now d m =
        let cert_there =
          lookup-put_other (key_path dir) (cert_path dir) (key_pem_of C (fresh m))
            (put (cert_path dir) (fresh m).cert_pem d) (λ e. reads.apart (sym e))
          ∙ lookup-put_self (cert_path dir) (fresh m).cert_pem d in
        let key_there =
          lookup-put_self (key_path dir) (key_pem_of C (fresh m))
            (put (cert_path dir) (fresh m).cert_pem d) in
        load-files (with_ca (fresh m) d) (fresh m).cert_pem (key_pem_of C (fresh m)) cert_there
          key_there
        ∙ from_pem-encoded m.der (with_defaults opts).organization m.key_id m.cert m.key m.parsed
            m.identified

    -- Where PEM and PKCS#1 are read back as they were written, the two files can be read and written
    -- and have different paths, and the calls of crypto succeed, `LoadOrCreate`
    -- returns an authority, from whatever is on the disk; and every later call on the disk that it
    -- leaves returns the same authority and leaves the disk as it is.
    pub load_or_create-again :
        (rand : C.Random) (now : ℕ) (d : Disk)
        → bad.unwritable (cert_path dir) ≡ false
        → bad.unwritable (key_path dir) ≡ false
        → Makes C (with_defaults opts) rand now
        → (ca : Ca C) × ((d' : Disk) × ((load_or_create C dir opts rand now bad d ≡ (some ca, d'))
              × ((rand' : C.Random) (now' : ℕ)
                  → load_or_create C dir opts rand' now' bad d' ≡ (some ca, d'))))
    load_or_create-again rand now d wc wk m =
        elim (Option-cases (load C dir (with_defaults opts) bad d)) [
          | inl e ↦ (
            fresh m,
            (
              with_ca (fresh m) d,
              (
                load_or_create-creates rand now d m wc wk e,
                λ rand' now'.
                    load_or_create-loads rand' now' (with_ca (fresh m) d) (fresh m)
                      (with_ca-loads rand now d m),
              ),
            ),
          )
          | inr (ca, e) ↦ (
            ca,
            (
              d,
              (
                load_or_create-loads rand now d ca e,
                λ rand' now'. load_or_create-loads rand' now' d ca e,
              ),
            ),
          )
        ]

    half :
        (rand : C.Random) (now : ℕ) (d : Disk) (m : Makes C (with_defaults opts) rand now)
        → bad.unwritable (cert_path dir) ≡ false
        → bad.unwritable (key_path dir) ≡ true
        → load C dir (with_defaults opts) bad d ≡ none
        → load_or_create C dir opts rand now bad d
          ≡ (none, put (cert_path dir) (fresh m).cert_pem d)
    unfolding load_or_create loaded created saved_cert saved_key write_file
    half rand now d m wc wk e =
        rw reads.dir_made
          (rw e (rw (new_ca-fresh C (with_defaults opts) rand now m) (rw wc (rw wk refl))))

    -- Where PEM and PKCS#1 are read back as they were written, the certificate can be written and the
    -- calls of crypto succeed: with a readable key file that cannot be opened for writing, and no
    -- usable pair, the first call fails after it has written its certificate; and every later call
    -- returns an authority of that certificate whose key is the old one, not the new one whose
    -- certificate it is, where the two keys differ.
    pub load_or_create-mismatched :
        (rand : C.Random) (now : ℕ) (d : Disk) (m : Makes C (with_defaults opts) rand now)
        (old : C.Key) (old_id : Str)
        → bad.unwritable (cert_path dir) ≡ false
        → bad.unwritable (key_path dir) ≡ true
        → load C dir (with_defaults opts) bad d ≡ none
        → lookup (key_path dir) d ≡ some (C.encode_pem key_type (C.marshal_pkcs1 old))
        → subject_key_id C old ≡ some old_id
        → old ≢ m.key
        → ((load_or_create C dir opts rand now bad d).0 ≡ none)
          × ((rand' : C.Random) (now' : ℕ)
              → (ca : Ca C) × (((load_or_create C dir opts rand' now' bad
                      (load_or_create C dir opts rand now bad d).1).0
                    ≡ some ca)
                  × ((ca.cert ≡ m.cert) × ((ca.key ≡ old) × (ca.key ≢ m.key)))))
    load_or_create-mismatched rand now d m old old_id wc wk e k i other =
        let d' = put (cert_path dir) (fresh m).cert_pem d in
        let first : load_or_create C dir opts rand now bad d ≡ (none, d') =
          half rand now d m wc wk e in
        let cert_there = lookup-put_self (cert_path dir) (fresh m).cert_pem d in
        let key_there =
          lookup-put_other (cert_path dir) (key_path dir) (fresh m).cert_pem d reads.apart ∙ k in
        let pair =
          load-files d' _ _ cert_there key_there
          ∙ from_pem-encoded m.der (with_defaults opts).organization old_id m.cert old m.parsed i in
        rw first (
          refl,
          λ rand' now'. (
            ca_of C (with_defaults opts).organization m.der m.cert old old_id,
            (ap (λ r. r.0) (load_or_create-loads rand' now' d' _ pair), (refl, (refl, other))),
          ),
        )
