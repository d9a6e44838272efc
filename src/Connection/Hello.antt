-- ===== src/Connection/Hello.antt =====
-- internal/proxy/sni.go: looking at the ClientHello of a connection without taking it away. The TLS
-- server that reads it is a parameter: what it does with what it has read so far.
use Prim.Native.Nat.{ℕ}
use mathlib.Core.Path.{◌≡◌, refl, sym, ap, ◌∙◌}
use mathlib.Core.Option.{Option, none, some}
use mathlib.Core.List.{List, [], ◌∷◌, ◌++◌, append_assoc}
use aitori.Base.{
  leb, if◌then◌else◌, length, take, drop, take-append-drop, is_empty, is_empty_iff, Bool-cases, inl,
  inr,
}
use aitori.Base.Text.{Str}

-- What will still arrive on a connection, in the pieces in which it arrives; then it ends.
abbrev pub Conn : Type 0
Conn = List Str

-- `conn.Read` into a buffer of `n` bytes; `none` is an error, the end of the stream included.
unfoldable pub read : ℕ → Conn → Option Str × Conn
read n [] = (none, [])
read n (piece ∷ rest) =
    if leb (length piece) n then (some piece, rest) else (some (take n piece), drop n piece ∷ rest)

-- `tls.Server(…).Handshake()` over a connection that cannot be written: it reads until it ends, with
-- the server name if it has called `GetConfigForClient`.
pub data Handshake : Type 0 where
  ends : Option Str → Handshake
  reads : ℕ → (Option Str → Handshake) → Handshake

-- What a successful read gave.
abbrev pub bytes_of : Option Str → Str
bytes_of none = []
bytes_of (some s) = s

-- `readClientHello` over the `io.TeeReader`: `buf` is what has been read.
unfoldable pub read_client_hello : Handshake → Conn → Str → Option Str × (Conn × Str)
unfolding read
read_client_hello (ends hello) conn buf = (hello, (conn, buf))
read_client_hello (reads n next) conn buf =
    let (got, rest) = read n conn in read_client_hello (next got) rest (buf ++ bytes_of got)

-- `prependConn`: the buffered bytes, then the connection.
pub record PrependConn : Type 0 where
  pub buffered : Str
  pub conn : Conn

-- `peekClientHello`: the server name, or none for an error, and the connection that replays.
unfoldable pub peek_client_hello : Handshake → Conn → Option Str × PrependConn
unfolding read_client_hello
peek_client_hello server conn =
    let (hello, (rest, buf)) = read_client_hello server conn [] in
    (hello, record { buffered = buf; conn = rest })

from_conn : Option Str × Conn → Option Str × PrependConn
from_conn (got, rest) = (got, record { buffered = []; conn = rest })

-- `prependConn.Read`, of the `io.MultiReader`.
unfoldable pub read_prepended : ℕ → PrependConn → Option Str × PrependConn
unfolding from_conn read
read_prepended n p =
    if is_empty p.buffered
    then from_conn (read n p.conn)
    else (some (take n p.buffered), record p { buffered = drop n p.buffered })

-- Reads of these sizes, one after the other: what they gave, and the connection after them.
unfoldable pub read_each : List ℕ → PrependConn → Str × PrependConn
unfolding read_prepended
read_each [] p = ([], p)
read_each (n ∷ ns) p =
    let (got, p1) = read_prepended n p in
    let (more, p2) = read_each ns p1 in (bytes_of got ++ more, p2)

-- All that a connection will still give.
unfoldable pub stream : Conn → Str
stream [] = []
stream (piece ∷ rest) = piece ++ stream rest

abbrev pub unread : PrependConn → Str
unread p = p.buffered ++ stream p.conn

read-stream :
    (n : ℕ) (conn : Conn) → bytes_of (read n conn).0 ++ stream (read n conn).1 ≡ stream conn
unfolding read stream
read-stream n [] = refl
read-stream n (piece ∷ rest) = elim (Bool-cases (leb (length piece) n)) [
  | inl whole ↦ rw whole refl
  | inr part ↦ rw part (
      sym (append_assoc (take n piece) (drop n piece) (stream rest))
      ∙ ap (λ t. t ++ stream rest) (take-append-drop n piece))
]

-- What the handshake reads is in the buffer, and nothing else.
read_client_hello-stream :
    (server : Handshake) (conn : Conn) (buf : Str)
    → (read_client_hello server conn buf).1.1 ++ stream (read_client_hello server conn buf).1.0
      ≡ buf ++ stream conn
unfolding read_client_hello
read_client_hello-stream (ends hello) conn buf = refl
read_client_hello-stream (reads n next) conn buf =
    let got = (read n conn).0 in
    let rest = (read n conn).1 in
    read_client_hello-stream (next got) rest (buf ++ bytes_of got)
    ∙ append_assoc buf (bytes_of got) (stream rest)
    ∙ ap (λ t. buf ++ t) (read-stream n conn)

read_prepended-unread :
    (n : ℕ) (p : PrependConn)
    → bytes_of (read_prepended n p).0 ++ unread (read_prepended n p).1 ≡ unread p
unfolding read_prepended from_conn
read_prepended-unread n p = elim (Bool-cases (is_empty p.buffered)) [
  | inl e ↦
      rw e
        (read-stream n p.conn ∙ sym (ap (λ b. b ++ stream p.conn) ((is_empty_iff p.buffered).0 e)))
  | inr e ↦ rw e (
      sym (append_assoc (take n p.buffered) (drop n p.buffered) (stream p.conn))
      ∙ ap (λ t. t ++ stream p.conn) (take-append-drop n p.buffered))
]

read_each-unread :
    (ns : List ℕ) (p : PrependConn) → (read_each ns p).0 ++ unread (read_each ns p).1 ≡ unread p
unfolding read_each
read_each-unread [] p = refl
read_each-unread (n ∷ ns) p =
    let p1 = (read_prepended n p).1 in
    append_assoc (bytes_of (read_prepended n p).0) (read_each ns p1).0 (unread (read_each ns p1).1)
    ∙ ap (λ t. bytes_of (read_prepended n p).0 ++ t) (read_each-unread ns p1)
    ∙ read_prepended-unread n p

read-none : (n : ℕ) (conn : Conn) → (read n conn).0 ≡ none → stream conn ≡ []
unfolding read stream
read-none n [] h = refl
read-none n (piece ∷ rest) h = elim (Bool-cases (leb (length piece) n)) [
  | inl whole ↦ absurd (cc (rw whole at h))
  | inr part ↦ absurd (cc (rw part at h))
]

read_prepended-none : (n : ℕ) (p : PrependConn) → (read_prepended n p).0 ≡ none → unread p ≡ []
unfolding read_prepended from_conn
read_prepended-none n p h = elim (Bool-cases (is_empty p.buffered)) [
  | inl e ↦
      ap (λ b. b ++ stream p.conn) ((is_empty_iff p.buffered).0 e) ∙ read-none n p.conn (rw e at h)
  | inr e ↦ absurd (cc (rw e at h))
]

-- Whatever the TLS server reads for the ClientHello, and whether or not it finds one, the connection
-- that is handed on gives the bytes of the original one: reads of any sizes give them from the first,
-- in order, with none lost or repeated, what is left is the rest, and a further read fails only when
-- nothing is left.
pub read_each-peek_client_hello :
    (server : Handshake) (conn : Conn) (ns : List ℕ)
    → ((read_each ns (peek_client_hello server conn).1).0
          ++ unread (read_each ns (peek_client_hello server conn).1).1
        ≡ stream conn)
      × ((n : ℕ)
          → (read_prepended n (read_each ns (peek_client_hello server conn).1).1).0 ≡ none
          → unread (read_each ns (peek_client_hello server conn).1).1 ≡ [])
unfolding peek_client_hello
read_each-peek_client_hello server conn ns = (
  read_each-unread ns (peek_client_hello server conn).1 ∙ read_client_hello-stream server conn [],
  λ n. read_prepended-none n (read_each ns (peek_client_hello server conn).1).1,
)
