-- ===== src/Connection/Context.antt =====
-- internal/proxy/proxy.go: the process behind a connection, kept in the connection's context, and the
-- dispatch of the proxy's own requests. The addresses of a connection and `netip.ParseAddrPort` are
-- parameters.
use mathlib.Core.Option.{Option, none, some}
use aitori.Base.{Bool, true, if◌then◌else◌}
use aitori.Base.Text.{Str, codes, str_eq, or_default}
use aitori.Config.{Config}

-- The address of `ListenAndServe`.
abbrev pub listen_addr : Option Config → Str
listen_addr none = codes "127.0.0.1:8080"
listen_addr (some cfg) = or_default cfg.proxy.listen (codes "127.0.0.1:8080")

-- What `handle` does with a request, by its method.
pub data Handling : Type 0 where
  connects : Handling
  serves : Handling

unfoldable pub handle : Str → Handling
unfolding str_eq
handle method = if str_eq method (codes "CONNECT") then connects else serves

module _ {AddrPort : Type 0} (parse_addr_port : Str → Option AddrPort) where
  -- `addrPort`; a connection without an address gives none.
  unfoldable pub addr_port : Option Str → Option AddrPort
  addr_port none = none
  addr_port (some a) = parse_addr_port a

module _ {AddrPort Info : Type 0} (parse_addr_port : Str → Option AddrPort) where
  -- `procResult` in a context, if `connContext` has put one there.
  asked :
      (AddrPort → AddrPort → Option Info) → Option AddrPort → Option AddrPort → Option (Option Info)
  asked proc none remote = none
  asked proc (some local) none = none
  asked proc (some local) (some remote) = some (proc local remote)

  -- `connContext`, where `proc` is the resolver, if there is one.
  unfoldable pub conn_context :
      Option (AddrPort → AddrPort → Option Info) → Option Str → Option Str → Option (Option Info)
  unfolding asked addr_port
  conn_context none local remote = none
  conn_context (some proc) local remote =
      asked proc (addr_port parse_addr_port local) (addr_port parse_addr_port remote)

-- `procFromContext`.
abbrev pub proc_from_context {ℓ} : {Info : Type ℓ} → Option (Option Info) → Option Info
proc_from_context none = none
proc_from_context (some result) = result

-- The listener and the server of `Proxy`, as far as they are there, and whether they are closed.
pub record Servers : Type 0 where
  pub server : Option Bool
  pub transparent : Option Bool

closed_one : Option Bool → Option Bool
closed_one none = none
closed_one (some closed) = some true

-- `Close` and, once its requests have ended, `Shutdown`.
unfoldable pub close : Servers → Servers
unfolding closed_one
close p = record { server = closed_one p.server; transparent = closed_one p.transparent }
