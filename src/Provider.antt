-- ===== src/Provider.antt =====
-- src/provider: the routing of requests to the hosts that run models.
pub mod Message
pub mod MultiHost
pub mod Failover
pub mod Routing
pub mod Models
pub mod Calls
pub mod Registry
pub mod Fastest
pub mod Catalog
