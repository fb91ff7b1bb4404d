-- ===== src/Examples.antt =====
-- The theorems applied to concrete messages, connections and clients.
mod Micro
mod Codec
mod Streams
mod Clients
mod Servers
mod Exchanges
mod Threads
mod Runs
