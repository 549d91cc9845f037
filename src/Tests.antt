-- ===== src/Tests.antt =====
-- The theorems at concrete inputs, and runs of the definitions.
mod Names
mod Archive
mod Config
mod Settings
mod Cli
mod Shown
mod Memory
mod Plugins
mod Tokens
mod Service
mod Ceiling
mod Api
mod Limits
mod Audit
mod Pool
mod Jobs
mod Auth
mod Partitions
mod Registry
mod License
mod Sdk
