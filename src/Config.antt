-- ===== src/Config.antt =====
-- src/config: settings from the environment, from files and from the command line.
pub mod Delegation
pub mod Settings
pub mod Dotenv
pub mod Options
pub mod Store
pub mod View
pub mod Refines
pub mod Valid
pub mod HostPort
pub mod Layers
pub mod Given
pub mod Precedence
pub mod Hosts
