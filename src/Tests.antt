-- ===== src/Tests.antt =====
-- Runs of the definitions and of the theorems at concrete inputs.
mod Messages
mod Opts
mod Connectors
mod Sockets
mod Pools
mod Transports
mod Exchanges
mod Addresses
mod Networks
