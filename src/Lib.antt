-- ===== src/Lib.antt =====
-- aitori is a local proxy that decrypts the traffic of allowlisted hosts and sends the requests to
-- AI providers through a gateway. A connection passes a gate (decrypt or splice), a decrypted
-- request is attributed to an application, classified by rules, and then blocked, passed through,
-- or rewritten for the gateway; the outcome of a call to the gateway moves a circuit breaker, and
-- what happened is shown on a local page. The agent around the proxy loads the configuration, points
-- the system and its clients at the proxy, and takes that back when it ends.
--
-- The files and the code that they model:
--   Base, Base/*      shared helpers: tests on numbers, lists, maps as association lists, Go
--                     strings as lists of bytes with the functions of package strings, UTF-8
--   Http, Http/*      what the program uses of net/http and net/url: header maps, URLs, escaping
--   Config            internal/config/config.go: the records, constants and defaults
--   Config/Validate   internal/config/load.go: Validate, with the parsers of net/url and time as
--                     parameters
--   PathMatch, */     internal/pathmatch/pathmatch.go: Match, MatchAny, glob
--   HostMatch, */     internal/hostmatch/hostmatch.go: Normalize, Match, MatchAny
--   AppResolve, */    internal/appresolve/resolve.go: Resolve and its tests; Paths is
--                     filepath.Clean
--   Classify, */      internal/classify/classify.go: Classify, ruleMatches, heuristicCategory
--   Pipeline, */      internal/pipeline/pipeline.go: effectiveRules, New, Decide
--   Circuit, */       internal/circuit/breaker.go: Allow, Success, Failure, Open
--   Router, */        internal/router/router.go: New, Rewrite, clampCtx, the Note operations;
--                     Context is the JSON of the context header
--   Forward/Bodies    internal/proxy/forward.go: drainBody
--   Forward/Hops      internal/proxy/forward.go: removeHopByHop
--   Forward/Replies   internal/proxy/forward.go: copyResponse, writeError
--   Forward/Serve, */ internal/proxy/forward.go: serve, newOutgoing, forwardUpstream
--   Gate, */          internal/proxy/proxy.go and coverage.go: shouldMITM, newReloadable,
--                     noteHandshakeFailure, recordPinning
--   Connection, */    internal/proxy/proxy.go: handleConnect, handleTransparent, splice, spliceTo,
--                     withDefaultPort; OneShot is oneShotListener and notifyConn,
--                     Context is connContext, Hello is internal/proxy/sni.go
--   Config/Load, */   internal/config/load.go: Load, Apply, GatewayURL, the timeouts, and
--                     loadConfig and cliOverrides of cmd/aitori/main.go
--   Config/Overlay, */ internal/profiles/profiles.go: Apply
--   SysUser           internal/sysuser/sysuser.go: Resolve, Home, Expand
--   Token, */         internal/token/token.go: FileSource and its watch loop
--   Sinks, */         internal/sink: Build, Multi, File and Stdout
--   Leaf, */          internal/ca/ca.go: LeafForName and GetCertificate
--   Ca, */            internal/ca/ca.go: LoadOrCreate, newCA, fromPEM, mintLeaf, leafValid
--   Proc, */          internal/adapter/proc: Resolve, enrich, addrMatch; Dir and Bundle are
--                     filepath.Dir and the search for an application's bundle
--   Command           cmd/aitori/commands.go: appMatchSummary, probeGateway, cmdStatus, cmdCA
--   TraceStore, */    tools/aitori-gateway/tracestore: Spans and Store are store.go, Exporter is
--                     exporter.go, Ui is ui.go; Sql says what a SELECT means
--   ClientCfg, */     internal/clientcfg/claudecode.go: injectAt and revertAt; Targets is
--                     InjectSettings and RevertAll
--   Agent, */         cmd/aitori/commands.go: serve, setupOS, setupTransparent, down, buildRouter,
--                     reload; Agent/Linux, Agent/Darwin and Agent/Windows are the
--                     adapters of internal/adapter
--   MockGateway, */   tools/aitori-gateway/main.go: proxyHandler; Trace is what a span records
--   Observe           internal/capture/exchange.go and the record that serve makes
--   LiveUi, */        internal/liveui/liveui.go: Record, Close, subscribe, unsubscribe;
--                     Pages is what the handlers answer
--
-- State is passed explicitly: an operation of a Go object takes its record and gives it back. A
-- critical section of a mutex is one step, so an interleaving is a list of steps (Circuit.run,
-- LiveUi.run) or a relation on states (Connection.OneShot). The clock is an argument. Bytes are
-- numbers and strings are lists of them; letter case and white space are those of ASCII. A Go map is
-- an association list, iterated in the order of the list. JSON and YAML decoding, the transport's
-- round trip, the parsers of net/url and time, and TLS are parameters; of a decoded value the
-- classifier sees what it prints. Counters are natural numbers without a bound.
--
-- The parts that touch the machine are written over what the machine offers: Agent over a record of
-- operations on an unknown state, with the laws that Agent/Linux/Orderly and Agent/Windows/Orderly
-- prove of two adapters from laws of what these call; ClientCfg and Ca over a disk of files, with laws
-- of JSON and of PEM; TraceStore over a database, with laws of its statements.
-- The router and the mock gateway meet in MockGateway/EndToEnd, the router, the gate and the
-- configuration in Agent/Reload, the cache of leaf certificates and the code that mints them in
-- Ca/Minted.
--
-- Loops are structural recursion on the pattern, the string or the list that they walk, so each one
-- ends by its form. `itoa` takes fuel, one more than the number that it prints, and a number has no
-- more digits than that. The search for a bundle (Proc.app_bundle_dir) takes fuel two more than the
-- length of the path: each round makes the path shorter or reaches "/" or ".".
--
-- Not modelled: sockets, TLS and the servers around them, which are I/O; the system call for the
-- original destination of a connection; buildAgent and the handling of signals, which put the parts
-- together; the set-up of the mock gateway and of its database. Log lines and the flushing of
-- replies are left out. What a failed attempt leaves of a streamed body, and what a failed write leaves
-- of a settings file, are parameters; a write of internal/ca that breaks off after the file was opened
-- is not in the model.
pub mod Base
pub mod PathMatch
pub mod HostMatch
pub mod Circuit
pub mod Http
pub mod Config
pub mod AppResolve
pub mod Classify
pub mod Pipeline
pub mod Router
pub mod Forward
pub mod Observe
pub mod Gate
pub mod LiveUi
pub mod ClientCfg
pub mod MockGateway
pub mod SysUser
pub mod Agent
pub mod Connection
pub mod Token
pub mod TraceStore
pub mod Ca
pub mod Leaf
pub mod Command
pub mod Proc
pub mod Sinks
