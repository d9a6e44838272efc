-- ===== src/HostMatch/Ports.antt =====
-- Letter case and port numbers do not change what a host pattern covers.
use aitori.Base.{
  ◌==◌, ◌≡◌, ◌≢◌, refl, ap, ◌∙◌, true, false, [], ◌∷◌, ◌++◌, arith, Bool-cases, inl, inr,
  All-append,
}
use aitori.Base.Text.{Str, count_byte, before_byte, to_lower, lower_byte, is_space, trim_space}
use aitori.Base.Text.Laws.{
  NoSpace, Lacks, to_lower_idem, to_lower-append, to_lower-NoSpace, to_lower-Lacks,
  to_lower-Lacks_bracket, trim_space_of_NoSpace, trim_space-to_lower, count_byte_of_Lacks,
  before_byte-append, before_byte-Lacks, before_byte-All, before_byte-to_lower_self,
}
use aitori.HostMatch.{strip_port, normalize, match}

-- Normalizing folds letter case.
pub normalize-to_lower : (host : Str) → normalize (to_lower host) ≡ normalize host
unfolding normalize
normalize-to_lower host =
    ap strip_port (ap to_lower (trim_space-to_lower host) ∙ to_lower_idem (trim_space host))

-- A match does not depend on the letter case of the pattern or of the host.
pub match-to_lower :
    (pattern host : Str) → match (to_lower pattern) (to_lower host) ≡ match pattern host
unfolding match
match-to_lower pattern host =
    rw (normalize-to_lower host, trim_space-to_lower pattern, to_lower_idem (trim_space pattern))

-- A host name: no white space, no colon and no opening bracket.
pub record IsName (host : Str) : Type 0 where
  pub spaces : NoSpace host
  pub colons : Lacks b':' host
  pub brackets : Lacks b'[' host

one_colon : (h port : Str) → Lacks b':' h → Lacks b':' port → count_byte b':' (h ++ b':' ∷ port) ≡ 1
unfolding count_byte
one_colon [] port k p = ground (arith, count_byte_of_Lacks b':' port p)
one_colon (c ∷ h) port (q, k) p = ground (arith, one_colon h port k p)

-- Before a single colon stands the name.
strip_port-colon :
    (h port : Str)
    → Lacks b':' h
    → Lacks b'[' h
    → Lacks b':' port
    → strip_port (h ++ b':' ∷ port) ≡ h
unfolding strip_port
strip_port-colon [] port k b p =
    ground (arith, one_colon [] port k p, before_byte-append b':' [] port k)
strip_port-colon (c ∷ h) port k b p =
    ground (arith, one_colon (c ∷ h) port k p, before_byte-append b':' (c ∷ h) port k)

-- The port is cut off: `host:port` normalizes to the lower-case host.
pub normalize-port :
    (host port : Str)
    → IsName host
    → NoSpace port
    → Lacks b':' port
    → normalize (host ++ b':' ∷ port) ≡ to_lower host
unfolding normalize
normalize-port host port n s k =
    ap strip_port (
      ap to_lower (trim_space_of_NoSpace (host ++ b':' ∷ port) spaces)
      ∙ to_lower-append host (b':' ∷ port))
    ∙ colon
  where
    spaces : NoSpace (host ++ b':' ∷ port)
    spaces =
        All-append (λ c. is_space c ≡ false) host (b':' ∷ port) n.spaces
          (unfold is_space in refl, s)

    colon : strip_port (to_lower host ++ to_lower (b':' ∷ port)) ≡ to_lower host
    colon =
        unfold to_lower lower_byte in
        strip_port-colon (to_lower host) (to_lower port) (to_lower-Lacks b':' host refl n.colons)
          (to_lower-Lacks_bracket host n.brackets) (to_lower-Lacks b':' port refl k)

strip_port_bare : (h : Str) → Lacks b':' h → Lacks b'[' h → strip_port h ≡ h
unfolding strip_port
strip_port_bare [] k b = refl
strip_port_bare (c ∷ h) k b = ground (arith, count_byte_of_Lacks b':' (c ∷ h) k)

pub normalize-name : (host : Str) → IsName host → normalize host ≡ to_lower host
unfolding normalize
normalize-name host n =
    ap strip_port (ap to_lower (trim_space_of_NoSpace host n.spaces))
    ∙ strip_port_bare (to_lower host) (to_lower-Lacks b':' host refl n.colons)
        (to_lower-Lacks_bracket host n.brackets)

-- A port behind a host name does not change what any pattern answers: the name has no white space,
-- colon or bracket, the port no white space and no colon.
pub match-port :
    (pattern host port : Str)
    → IsName host
    → NoSpace port
    → Lacks b':' port
    → match pattern (host ++ b':' ∷ port) ≡ match pattern host
unfolding match
match-port pattern host port n s k = rw (normalize-port host port n s k, normalize-name host n)

strip_port-one :
    (h : Str) → Lacks b'[' h → (count_byte b':' h == 1) ≡ true → strip_port h ≡ before_byte b':' h
unfolding strip_port count_byte
strip_port-one [] b e = cc
strip_port-one (c ∷ h) b e = ground arith

strip_port-other : (h : Str) → Lacks b'[' h → (count_byte b':' h == 1) ≡ false → strip_port h ≡ h
unfolding strip_port
strip_port-other [] b e = refl
strip_port-other (c ∷ h) b e = ground arith

strip_port_idem : (h : Str) → Lacks b'[' h → strip_port (strip_port h) ≡ strip_port h
strip_port_idem h b = elim (Bool-cases (count_byte b':' h == 1)) [
  | inl one ↦ rw (strip_port-one h b one) (
      strip_port_bare (before_byte b':' h) (before_byte-Lacks b':' h)
        (before_byte-All (λ c. c ≢ b'[') b':' h b))
  | inr other ↦ ap strip_port (strip_port-other h b other)
]

strip_port-NoSpace : (h : Str) → Lacks b'[' h → NoSpace h → NoSpace (strip_port h)
strip_port-NoSpace h b s = elim (Bool-cases (count_byte b':' h == 1)) [
  | inl one ↦ rw (strip_port-one h b one) (before_byte-All (λ c. is_space c ≡ false) b':' h s)
  | inr other ↦ rw (strip_port-other h b other) s
]

to_lower-strip_port :
    (h : Str) → Lacks b'[' h → to_lower h ≡ h → to_lower (strip_port h) ≡ strip_port h
to_lower-strip_port h b l = elim (Bool-cases (count_byte b':' h == 1)) [
  | inl one ↦ rw (strip_port-one h b one) (before_byte-to_lower_self b':' h l)
  | inr other ↦ rw (strip_port-other h b other) l
]

-- A host with no white space and no bracket is normalized once and for all, so the normalized
-- hosts that the proxy keeps and hands on are compared as they are.
pub normalize_idem :
    (host : Str) → NoSpace host → Lacks b'[' host → normalize (normalize host) ≡ normalize host
unfolding normalize
normalize_idem host s b =
    let h = to_lower host in
    let lacks = to_lower-Lacks_bracket host b in
    let spaces = strip_port-NoSpace h lacks (to_lower-NoSpace host s) in
    rw (trim_space_of_NoSpace host s) (
      ap strip_port (
        ap to_lower (trim_space_of_NoSpace (strip_port h) spaces)
        ∙ to_lower-strip_port h lacks (to_lower_idem host))
      ∙ strip_port_idem h lacks)
