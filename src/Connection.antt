-- ===== src/Connection.antt =====
-- internal/proxy/proxy.go: what becomes of one connection. Sockets, TLS and the requests on a decrypted
-- connection are parameters; a connection leaves the list of what was done on it. `Decrypts` says
-- which connections are decrypted, `OneShot` models the listener of one connection, `Hello` the
-- look at the ClientHello.
pub mod Decrypts
pub mod OneShot
pub mod Hello
pub mod Context
mod Tests
use mathlib.Core.Option.{Option, none, some}
use mathlib.Core.List.{List, [], ◌∷◌}
use aitori.Base.{ℕ, Bool, not, is_empty, if◌then◌else◌}
use aitori.Base.Text.{Str, codes}
use aitori.HostMatch.{normalize}
use aitori.Gate.{Coverage, Gate, note_handshake_failure, should_mitm}

-- What is done on a connection.
pub data Event : Type 0 where
  refused : Event  -- an error of the hijacking
  wrote : Str → Event
  dialed : Str → Event
  piped : Str → Event  -- raw bytes, both ways
  handshaken : Event
  served : Str → Event  -- requests on the decrypted connection
  closed : Event

abbrev pub established : Str
established = codes "HTTP/1.1 200 Connection Established\r\n\r\n"

-- What a connection meets: whether its bytes can be taken over and written to, whether an address can
-- be dialled, the error of the handshake if there is one, and what the client says first.
pub record Peer : Type 0 where
  pub can_hijack : Bool
  pub hijacks : Bool
  pub writes : Bool
  pub dials : Str → Bool
  pub handshake : Option Str
  pub original_dst : Option Str
  pub client_hello : Option Str

module _ (split_host_port : Str → Option (Str × Str)) (join_host_port : Str → Str → Str) where
  -- `withDefaultPort`.
  unfoldable pub with_default_port : Str → Str → Str
  with_default_port hostport port = known (split_host_port hostport)
    where
      known : Option (Str × Str) → Str
      known none = join_host_port hostport port
      known (some parts) = hostport

  module _ (gate : Gate) (peer : Peer) (now : ℕ) where
    -- `splice`.
    unfoldable pub splice : Str → List Event
    unfolding with_default_port
    splice hostport =
        let addr = with_default_port hostport (codes "443") in
        if not (peer.dials addr)
        then dialed addr ∷ wrote (codes "HTTP/1.1 502 Bad Gateway\r\n\r\n") ∷ closed ∷ []
        else if not peer.writes
        then dialed addr ∷ closed ∷ []
        else dialed addr ∷ wrote established ∷ piped addr ∷ closed ∷ []

    -- `spliceTo`.
    unfoldable pub splice_to : Str → List Event
    splice_to dst =
        if not (peer.dials dst)
        then dialed dst ∷ closed ∷ []
        else dialed dst ∷ piped dst ∷ closed ∷ []

    -- The handshake, and behind it the requests, or what is noted of its failure. That a served
    -- connection is closed at the end is what `http.Server` does.
    decrypt : Str → Str → Option Str → Coverage → List Event × Coverage
    unfolding note_handshake_failure
    decrypt noted hostport none coverage = (handshaken ∷ served hostport ∷ closed ∷ [], coverage)
    decrypt noted hostport (some err) coverage =
        (closed ∷ [], note_handshake_failure noted err now coverage)

    -- `handleConnect`.
    unfoldable pub handle_connect : Str → Coverage → List Event × Coverage
    unfolding splice decrypt should_mitm
    handle_connect hostport coverage =
        let decrypted = decrypt hostport hostport peer.handshake coverage in
        if not peer.can_hijack
        then (refused ∷ [], coverage)
        else if not peer.hijacks
        then ([], coverage)
        else if not (should_mitm gate hostport)
        then (splice hostport, coverage)
        else if not peer.writes
        then (closed ∷ [], coverage)
        else (wrote established ∷ decrypted.0, decrypted.1)

    to_destination : Option Str → List Event
    unfolding splice_to
    to_destination none = closed ∷ []
    to_destination (some dst) = splice_to dst

    hello : Option Str → Coverage → List Event × Coverage
    unfolding decrypt should_mitm to_destination
    hello none coverage = (to_destination peer.original_dst, coverage)
    hello (some sni) coverage =
        let decrypted =
          decrypt sni (join_host_port (normalize sni) (codes "443")) peer.handshake coverage in
        let passed = to_destination peer.original_dst in
        if is_empty sni
        then (passed, coverage)
        else if should_mitm gate sni
        then decrypted
        else (passed, coverage)

    -- `handleTransparent`.
    unfoldable pub handle_transparent : Coverage → List Event × Coverage
    unfolding hello
    handle_transparent coverage = hello peer.client_hello coverage
