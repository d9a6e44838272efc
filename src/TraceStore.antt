-- ===== src/TraceStore.antt =====
-- tools/aitori-gateway/tracestore: spans in a SQL database, and the pages that show them. The
-- database, its driver and encoding/json are parameters. `Spans` holds the data and the driver,
-- `Store` the operations of store.go, `Exporter` those of exporter.go, `Ui` the handlers of ui.go.
-- `Sql` says what a SELECT means, `Found` which spans a query returns, `Statements` what its text
-- can depend on, `Saved` what comes of an insertion; `Memory` is a database in a list.
pub mod Spans
pub mod Store
pub mod Exporter
pub mod Sql
pub mod Found
pub mod Statements
pub mod Saved
pub mod Ui
mod Memory
mod Tests
