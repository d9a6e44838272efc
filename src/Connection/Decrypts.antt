-- ===== src/Connection/Decrypts.antt =====
-- Which connections are decrypted, and that every one is closed.
use mathlib.Core.Path.{◌≡◌, refl}
use mathlib.Core.Logic.{inl, inr}
use mathlib.Core.Option.{Option, none, some}
use mathlib.Core.List.{List, [], ◌∷◌}
use aitori.Base.{ℕ, Bool, true, false, not, ◌&&◌, Bool-cases, is_empty, if◌then◌else◌}
use aitori.Base.Text.{Str, codes}
use aitori.Gate.{Coverage, Gate, should_mitm}
use aitori.Connection.{
  Event, Peer, closed, decrypt, dialed, established, handle_connect, handle_transparent, handshaken,
  hello, piped, refused, served, splice, splice_to, to_destination, with_default_port, wrote,
}

-- The client's bytes are decrypted.
abbrev pub is_decrypted : List Event → Bool
is_decrypted [] = false
is_decrypted (handshaken ∷ es) = true
is_decrypted (served s ∷ es) = true
is_decrypted (refused ∷ es) = is_decrypted es
is_decrypted (wrote s ∷ es) = is_decrypted es
is_decrypted (dialed s ∷ es) = is_decrypted es
is_decrypted (piped s ∷ es) = is_decrypted es
is_decrypted (closed ∷ es) = is_decrypted es

-- Nothing is done behind the end, which is there.
abbrev pub is_closed : List Event → Bool
is_closed [] = false
is_closed (closed ∷ []) = true
is_closed (closed ∷ e ∷ es) = false
is_closed (handshaken ∷ es) = is_closed es
is_closed (served s ∷ es) = is_closed es
is_closed (refused ∷ es) = is_closed es
is_closed (wrote s ∷ es) = is_closed es
is_closed (dialed s ∷ es) = is_closed es
is_closed (piped s ∷ es) = is_closed es

abbrev pub no_error : Option Str → Bool
no_error none = true
no_error (some err) = false

-- The name that a client says first.
abbrev pub name_of : Option Str → Str
name_of none = []
name_of (some sni) = sni

module _ (split_host_port : Str → Option (Str × Str)) (join_host_port : Str → Str → Str)
    (gate : Gate) (peer : Peer) (now : ℕ) where
  -- A connection that is passed on is not decrypted, and it is closed.
  splice-passed :
      (hostport : Str)
      → (is_decrypted (splice split_host_port join_host_port gate peer now hostport) ≡ false)
        × (is_closed (splice split_host_port join_host_port gate peer now hostport) ≡ true)
  unfolding splice
  splice-passed hostport =
      let addr = with_default_port split_host_port join_host_port hostport (codes "443") in
      either addr (peer.dials addr) peer.writes
    where
      either :
          (addr : Str) (dials writes : Bool)
          → let events : List Event =
              if not dials
              then dialed addr ∷ wrote (codes "HTTP/1.1 502 Bad Gateway\r\n\r\n") ∷ closed ∷ []
              else if not writes
              then dialed addr ∷ closed ∷ []
              else dialed addr ∷ wrote established ∷ piped addr ∷ closed ∷ [] in
            (is_decrypted events ≡ false) × (is_closed events ≡ true)
      either addr false writes = (refl, refl)
      either addr true false = (refl, refl)
      either addr true true = (refl, refl)

  to_destination-passed :
      (dst : Option Str)
      → (is_decrypted (to_destination split_host_port join_host_port gate peer now dst) ≡ false)
        × (is_closed (to_destination split_host_port join_host_port gate peer now dst) ≡ true)
  unfolding to_destination splice_to
  to_destination-passed none = (refl, refl)
  to_destination-passed (some dst) = elim (Bool-cases (peer.dials dst)) [
    | inl e ↦ rw e (refl, refl)
    | inr e ↦ rw e (refl, refl)
  ]

  decrypt-fate :
      (noted hostport : Str) (err : Option Str) (c : Coverage)
      → let events =
          (decrypt split_host_port join_host_port gate peer now noted hostport err c).0 in
        (is_decrypted events ≡ no_error err) × (is_closed events ≡ true)
  unfolding decrypt
  decrypt-fate noted hostport none c = (refl, refl)
  decrypt-fate noted hostport (some err) c = (refl, refl)

  -- A connection by CONNECT that can be taken over is decrypted exactly if its host is to be
  -- decrypted, the client can be answered, and it trusts the certificate; it is closed at the end,
  -- whatever happens.
  pub handle_connect-fate :
      (hostport : Str) (c : Coverage)
      → peer.can_hijack ≡ true
      → peer.hijacks ≡ true
      → let events = (handle_connect split_host_port join_host_port gate peer now hostport c).0 in
        (is_decrypted events
          ≡ (should_mitm gate hostport && (peer.writes && no_error peer.handshake)))
        × (is_closed events ≡ true)
  unfolding handle_connect
  handle_connect-fate hostport c can does =
      rw (can, does)
        (elim (Bool-cases (should_mitm gate hostport)) [
          | inl e ↦ rw e (elim (Bool-cases peer.writes) [
            | inl w ↦ rw w (decrypt-fate hostport hostport peer.handshake c)
            | inr w ↦ rw w (refl, refl)
          ])
          | inr e ↦ rw e (splice-passed hostport)
        ])

  hello-fate :
      (sni : Option Str) (c : Coverage)
      → let events = (hello split_host_port join_host_port gate peer now sni c).0 in
        (is_decrypted events ≡ (
          not (is_empty (name_of sni))
          && (should_mitm gate (name_of sni) && no_error peer.handshake)))
        × (is_closed events ≡ true)
  unfolding hello
  hello-fate none c = to_destination-passed peer.original_dst
  hello-fate (some []) c = to_destination-passed peer.original_dst
  hello-fate (some (b ∷ sni)) c = elim (Bool-cases (should_mitm gate (b ∷ sni))) [
    | inl e ↦ rw e (decrypt-fate (b ∷ sni) _ peer.handshake c)
    | inr e ↦ rw e (to_destination-passed peer.original_dst)
  ]

  -- A captured connection is decrypted exactly if the client names a host that is to be decrypted and
  -- trusts the certificate, and otherwise passed on as it is; it is closed at the end, whatever
  -- happens.
  pub handle_transparent-fate :
      (c : Coverage)
      → let events = (handle_transparent split_host_port join_host_port gate peer now c).0 in
        let sni = name_of peer.client_hello in
        (is_decrypted events
          ≡ (not (is_empty sni) && (should_mitm gate sni && no_error peer.handshake)))
        × (is_closed events ≡ true)
  unfolding handle_transparent
  handle_transparent-fate c = hello-fate peer.client_hello c
