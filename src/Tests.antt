-- ===== src/Tests.antt =====
-- Each main theorem at a concrete input where its hypotheses hold.
mod Samples
mod Storage
mod Caching
mod Queues
mod Records
mod Stores
mod Searches
mod Servers
mod Wire
mod Workers
mod Parities
mod Guards
mod Services
