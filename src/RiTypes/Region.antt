-- ===== src/RiTypes/Region.antt =====
-- `class Region`: include/ris/ritypes.h and src/ritypes.cxx. The constructor that reads the clock
-- takes the time as an argument.
use ris.Base.{
  ℕ, String, Bool, true, false, Option, none, some, if◌then◌else◌, ◌&&◌, ◌||◌, not, is_empty, ◌==◌,
  ◌>>=◌,
}
use ris.RiTypes.EndPoint
use ris.RiTypes.EndPoint.{EndPoint}
use ris.RiTypes.Messages.{
  RegionMsg, RegionRuntime, Published, pub_region, pub_rm_region, SnapshotItem, region_begin,
  region_end,
}

pub record Region : Type 0 where
  pub id : String
  pub version : ℕ
  pub idc : String
  pub bus : EndPoint
  pub snapshot : EndPoint
  pub timeval : ℕ

-- `Region::Region()`
unfoldable pub default : Region
default = record {
  id = "";
  version = 0;
  idc = "";
  bus = EndPoint.default;
  snapshot = EndPoint.default;
  timeval = 0;
}

-- `Region::Region(const ris::Region&)`
unfoldable pub of_protobuf : ℕ → RegionMsg → Region
of_protobuf now r = record {
  id = r.uuid;
  version = 0;
  idc = r.idc;
  bus = EndPoint.of_protobuf r.bus;
  snapshot = EndPoint.of_protobuf r.snapshot;
  timeval = now;
}

unfoldable pub good : Region → Bool
good r =
    if (is_empty r.id
      || is_empty r.idc
      || not (EndPoint.all_good r.bus)
      || not (EndPoint.all_good r.snapshot)
      || r.timeval == 0)
    then false
    else true

-- `Region::toProtobuf(ris::Region*)`
unfoldable pub to_protobuf : Region → Option RegionMsg
to_protobuf r =
    if not (is_empty r.id) && not (is_empty r.idc)
    then (do
      bus ← EndPoint.to_protobuf r.bus
      snapshot ← EndPoint.to_protobuf r.snapshot
      some (record { uuid = r.id; idc = r.idc; bus = bus; snapshot = snapshot }))
    else none

-- `Region::toProtobuf(ris::RegionRuntime*)`
unfoldable pub to_runtime : Region → RegionRuntime
to_runtime r = record { uuid = r.id; version = r.version }

unfoldable pub to_publish : Region → Option Published
to_publish r = do region ← to_protobuf r; some (pub_region (to_runtime r) region)

unfoldable pub to_publish_rm : String → Option Published
to_publish_rm uuid = if is_empty uuid then none else some (pub_rm_region uuid)

unfoldable pub to_snapshot_begin : Region → Option SnapshotItem
to_snapshot_begin r = do region ← to_protobuf r; some (region_begin (to_runtime r) region)

unfoldable pub to_snapshot_end : Region → SnapshotItem
to_snapshot_end r = region_end (to_runtime r)
