-- ===== src/Cli.antt =====
-- cmd/easyp-svc: the commands on plugins.
pub mod Build
pub mod Builds
pub mod Plugins
pub mod Transfer
pub mod Print
