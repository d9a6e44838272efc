-- ===== src/Forward.antt =====
-- internal/proxy/forward.go: one proxied request. `Bodies` models the buffering of the request
-- body, `Hops` the removal of connection headers, `Replies` what is written back, and `Serve` the
-- handler that joins them.
pub mod Bodies
pub mod Hops
pub mod Replies
pub mod Serve
