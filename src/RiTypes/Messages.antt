-- ===== src/RiTypes/Messages.antt =====
-- The messages of proto/ris.proto, proto/pub.proto and proto/snapshot.proto, as their accessors
-- show them: a field that is absent on the wire reads as its default, the empty text or zero.
-- `Published` is the union of the messages on the publish channel, `SnapshotItem` of those in a
-- snapshot package.
use ris.Base.{ℕ, String}

pub record EndPointMsg : Type 0 where
  pub address : String
  pub identity : String

pub record RegionMsg : Type 0 where
  pub uuid : String
  pub idc : String
  pub bus : EndPointMsg
  pub snapshot : EndPointMsg

pub record RegionRuntime : Type 0 where
  pub uuid : String
  pub version : ℕ

pub record ServiceMsg : Type 0 where
  pub name : String
  pub endpoint : EndPointMsg

pub record PayloadMsg : Type 0 where
  pub uuid : String

pub data Published : Type 0 where
  pub_region : RegionRuntime → RegionMsg → Published
  pub_rm_region : String → Published
  pub_service : RegionRuntime → ServiceMsg → Published
  pub_rm_service : RegionRuntime → String → Published
  pub_payload : RegionRuntime → PayloadMsg → Published
  pub_rm_payload : RegionRuntime → String → Published

pub data SnapshotItem : Type 0 where
  snapshot_begin : SnapshotItem
  region_begin : RegionRuntime → RegionMsg → SnapshotItem
  service : ServiceMsg → SnapshotItem
  payload : PayloadMsg → SnapshotItem
  region_end : RegionRuntime → SnapshotItem
  snapshot_end : SnapshotItem
