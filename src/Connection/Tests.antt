-- ===== src/Connection/Tests.antt =====
-- Two connections and a run of the listener, and the theorems at them.
use mathlib.Core.Path.{◌≡◌, refl}
use mathlib.Core.Logic.{◌≢◌}
use mathlib.Core.Option.{Option, none, some}
use mathlib.Core.List.{[], ◌∷◌, ◌++◌}
use aitori.Base.{ℕ, ◌≤◌, true, false, ◌&&◌}
use aitori.Base.Text.{Str, codes}
use aitori.Gate.{Gate, should_mitm}
use aitori.Connection.{Peer, handle_connect, with_default_port}
use aitori.Connection.Decrypts.{handle_connect-fate, is_closed, is_decrypted, no_error}
use aitori.Connection.Hello.{
  Conn, Handshake, ends, peek_client_hello, read_each, read_each-peek_client_hello, read_prepended,
  reads, stream, unread,
}
use aitori.Connection.OneShot.{
  Listener, Step, Steps, accept_conn, accept_ended, accepted, close_accepted, close_conn,
  closing_conn, ended, hand_outs, opened, run-oneshot, stay, step,
}

abbrev split_host_port : Str → Option (Str × Str)
split_host_port s = none

abbrev join_host_port : Str → Str → Str
join_host_port host port = host ++ b':' ∷ port

abbrev gate : Gate
gate = record {
  intercept_hosts = codes "api.anthropic.com" ∷ [];
  gateway_host = codes "gw.example.com";
}

abbrev peer : Peer
peer = record {
  can_hijack = true;
  hijacks = true;
  writes = true;
  dials = λ addr. true;
  handshake = none;
  original_dst = none;
  client_hello = some (codes "api.anthropic.com");
}

port_is_added :
    with_default_port split_host_port join_host_port (codes "a.com") (codes "443")
    ≡ codes "a.com:443"
unfolding with_default_port
port_is_added = refl

handle_connect-fate_example :
    let host = codes "api.anthropic.com:443" in
    let events = (handle_connect split_host_port join_host_port gate peer 7 host []).0 in
    (is_decrypted events ≡ (should_mitm gate host && (peer.writes && no_error peer.handshake)))
    × (is_closed events ≡ true)
handle_connect-fate_example =
    handle_connect-fate split_host_port join_host_port gate peer 7 (codes "api.anthropic.com:443")
      [] refl refl

-- The server takes the connection, closes it, and asks again.
abbrev handed : Listener
handed = record opened { ch = false }

served_once : Steps (accepted ∷ closing_conn ∷ ended ∷ []) opened (close_conn handed)
unfolding close_conn
served_once = step (accept_conn refl) (step (close_accepted refl) (step (accept_ended refl) stay))

run-oneshot_example :
    (hand_outs (accepted ∷ closing_conn ∷ ended ∷ []) ≤ 1)
    × (((close_conn handed).done_closes ≤ 1)
        × (((close_conn handed).conn_closes ≢ 0)
            → Step ended (close_conn handed) (close_conn handed)))
run-oneshot_example = run-oneshot served_once

-- A server that reads five bytes and then as many as it gets, and finds a name.
abbrev toy_server : Handshake
toy_server = reads 5 (λ got. reads 100 (λ got'. ends (some (codes "a.com"))))

abbrev hello_conn : Conn
hello_conn = codes "hel" ∷ codes "lo then data" ∷ codes " and more" ∷ []

read_each-peek_client_hello_example :
    ((read_each (2 ∷ 50 ∷ []) (peek_client_hello toy_server hello_conn).1).0
        ++ unread (read_each (2 ∷ 50 ∷ []) (peek_client_hello toy_server hello_conn).1).1
      ≡ stream hello_conn)
    × ((n : ℕ)
        → (read_prepended n
            (read_each (2 ∷ 50 ∷ []) (peek_client_hello toy_server hello_conn).1).1).0
          ≡ none
        → unread (read_each (2 ∷ 50 ∷ []) (peek_client_hello toy_server hello_conn).1).1 ≡ [])
read_each-peek_client_hello_example =
    read_each-peek_client_hello toy_server hello_conn (2 ∷ 50 ∷ [])

hello_name : (peek_client_hello toy_server hello_conn).0 ≡ some (codes "a.com")
unfolding peek_client_hello
hello_name = refl
