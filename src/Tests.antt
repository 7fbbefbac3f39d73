-- ===== src/Tests.antt =====
-- The theorems at concrete tables, queues and messages.
mod RegionSide
mod TrackerSide
mod Transport
mod Snapshots
mod Joining
mod Bus
