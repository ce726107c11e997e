-- ===== src/Api/Tunnel.antt =====
-- internal/api/tunnel.go and the hub part of internal/api/hapi_gateway.go: the peers that are
-- connected, the maps of the hub and what goes over the wire. Each function that holds `t.mu` is one
-- step. A pointer or a channel is its address, a number. What the runtime decides is an argument:
-- `Network` says how each send ends (`sendControl` selects among the queue, the closed peer and a
-- five-second timer). A `range` over a map is a walk over its entries: the order does not show,
-- since every entry has a queue of its own.
pub mod Hub
pub mod Attach
pub mod Delivery
pub mod Discovery
pub mod Frames
pub mod Invariant
pub mod Preserve
pub mod Requests
pub mod Untouched
pub mod Steps
pub mod Routing
pub mod Takeover
pub mod Opened
pub mod Release
pub mod Exchange
mod Tests
