-- ===== src/RiTypes/RoundTrip.antt =====
-- What the publish channel and the snapshot channel carry, against the records that they carry.
use ris.Base.{ℕ, ◌≡◌, some, arith, is_empty→eq}
use ris.RiTypes.EndPoint
use ris.RiTypes.EndPoint.{EndPoint}
use ris.RiTypes.Region
use ris.RiTypes.Region.{Region}
use ris.RiTypes.Service
use ris.RiTypes.Service.{Service}
use ris.RiTypes.Messages.{EndPointMsg, RegionMsg, ServiceMsg}

pub endpoint_round_trip :
    (ep : EndPoint) (m : EndPointMsg)
    → EndPoint.to_protobuf ep ≡ some m
    → EndPoint.of_protobuf m ≡ ep
unfolding EndPoint.to_protobuf EndPoint.of_protobuf
endpoint_round_trip ep m h = ground (arith, is_empty→eq ep.identity)

-- A region that was encoded decodes to itself, but for the version, which travels in the runtime
-- part, and the time, which is that of the receiver.
pub region_round_trip :
    (now : ℕ) (r : Region) (m : RegionMsg)
    → Region.to_protobuf r ≡ some m
    → Region.of_protobuf now m ≡ record r { version = 0; timeval = now }
unfolding Region.to_protobuf Region.of_protobuf
region_round_trip now r m h =
    ground (arith, endpoint_round_trip r.bus m.bus, endpoint_round_trip r.snapshot m.snapshot)

-- A service that was encoded decodes to itself, but for the time, which is that of the receiver.
pub service_round_trip :
    (now : ℕ) (s : Service) (m : ServiceMsg)
    → Service.to_protobuf s ≡ some m
    → Service.of_protobuf now m ≡ record s { timeval = now }
unfolding Service.to_protobuf Service.of_protobuf
service_round_trip now s m h = ground (arith, endpoint_round_trip s.endpoint m.endpoint)
