-- ===== src/RiTypes.antt =====
-- include/ris/ritypes.h and src/ritypes.cxx: the records that all parts exchange, and their
-- conversion to and from the messages of proto/ris.proto and proto/pub.proto. A `CHECK` that fails
-- aborts the process: `none`.
pub mod Messages
pub mod EndPoint
pub mod Region
pub mod Service
pub mod Payload
pub mod RoundTrip
