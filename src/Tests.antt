-- ===== src/Tests.antt =====
-- Each theorem with a hypothesis, or about any data, applied to concrete data.
mod Data
mod Tasks
mod Services
mod Delivery
mod Sql
mod Worlds
mod Parts
mod Requests
mod Http
mod Streams
