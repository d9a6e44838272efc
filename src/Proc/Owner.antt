-- ===== src/Proc/Owner.antt =====
-- Which process `Resolve` of internal/adapter/proc/proc.go gives.
use Prim.Native.Nat.{ℕ}
use mathlib.Core.Path.{◌≡◌, refl, sym, subst}
use mathlib.Core.Logic.{inl, inr}
use mathlib.Core.Option.{Option, none, some, map}
use mathlib.Core.List.{List, [], ◌∷◌}
use aitori.Base.{
  true, false, ◌==◌, arith, All, Bool-cases, find, IsFirst, find-IsFirst, find-none_iff,
}
use aitori.Base.Text.{Str}
use aitori.Proc.{
  AddrPort, Host, Info, Socket, addr_match, enrich, is_client, resolve, resolve_in, resolve_table,
  same_addr,
}

module _ (H : Host) (bundle_of : Str → Str) where
  -- An address of the table that parses names the same machine as `want`.
  pub record IsAt (want : AddrPort H bundle_of) (ip : Str) (port : ℕ) (a : H.Addr) : Type 0 where
    pub same_port : want.port ≡ port
    pub same_machine : H.addr_eq (H.unmap want.addr) (H.unmap a) ≡ true

  addr_match-IsAt :
      (want : AddrPort H bundle_of) (ip : Str) (port : ℕ) (a : H.Addr)
      → H.parse_addr ip ≡ some a
      → addr_match H bundle_of want ip port ≡ true
      → IsAt want ip port a
  unfolding addr_match same_addr
  addr_match-IsAt want ip port a e h = elim (Bool-cases (want.port == port)) [
    | inl p ↦ record { same_port = ground arith; same_machine = rw (p, e) at h }
    | inr p ↦ absurd (cc (rw p at h))
  ]

  resolve_in-find :
      (local remote : AddrPort H bundle_of) (cs : List Socket)
      → resolve_in H bundle_of local remote cs
        ≡ map
            (λ (c : Socket). enrich H bundle_of c.owner)
            (find (is_client H bundle_of local remote) cs)
  unfolding resolve_in find
  resolve_in-find local remote [] = refl
  resolve_in-find local remote (c ∷ cs) = elim (Bool-cases (is_client H bundle_of local remote c)) [
    | inl hit ↦ rw hit refl
    | inr miss ↦ rw miss (resolve_in-find local remote cs)
  ]

  -- What `Resolve` may give: the process of the first row that is the client's, or none.
  pub data IsOwner (local remote : AddrPort H bundle_of) (cs : List Socket)
      : Option Info → Type 0 where
    owned :
        {c : Socket}
        → IsFirst (is_client H bundle_of local remote) cs c
        → IsOwner local remote cs (some (enrich H bundle_of c.owner))
    unowned :
        All (λ c. is_client H bundle_of local remote c ≡ false) cs → IsOwner local remote cs none

  -- With a table `Resolve` gives the process of the first row that has a process and is the client's
  -- end of the connection, and none only if no row is.
  pub resolve-IsOwner :
      (local remote : AddrPort H bundle_of) (cs : List Socket)
      → IsOwner local remote cs (resolve H bundle_of local remote (some cs))
  unfolding resolve resolve_table
  resolve-IsOwner local remote cs =
      subst (IsOwner local remote cs) (sym (resolve_in-find local remote cs))
        (chosen (find (is_client H bundle_of local remote) cs) refl)
    where
      chosen :
          (o : Option Socket)
          → find (is_client H bundle_of local remote) cs ≡ o
          → IsOwner local remote cs (map (λ (c : Socket). enrich H bundle_of c.owner) o)
      chosen none e = unowned ((find-none_iff (is_client H bundle_of local remote) cs).0 e)
      chosen (some c) e = owned (find-IsFirst (is_client H bundle_of local remote) cs e)
