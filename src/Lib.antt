-- ===== src/Lib.antt =====
-- A verification library of ris, the registry of regions and their services.
--
-- The program. A region keeps a table of the services and payloads that it offers and publishes
-- every change. A tracker joins each region's snapshot and publications into one table, from which
-- it answers where a service or a payload is. A bus carries messages to the workers of a region.
-- Each process runs its components on one event loop, so a component is a state and its handlers
-- are functions on it, called one after another.
--
-- The files.
-- - Base, Words: the shared names, tests and list helpers, and the wrap-around of machine words.
-- - Containers: `std::unordered_map` as an association list (Map), `std::list` as an order of
--   addresses over a memory of cells (NodeList), and the pair of the two that most components keep
--   (Indexed), with its coherence, its contents as a plain list, and properties of its elements.
-- - RiTypes: `EndPoint`, `Region`, `Service` and `Payload` (include/ris/ritypes.h,
--   src/ritypes.cxx) and the messages of proto/ that they convert to. A failed `CHECK` is `none`.
-- - Observer: the calls of `IRIObserver` (include/ris/riobserver.h) as values.
-- - RegionTable: `RIRegionTable` (src/region/regiontable.cxx). `addService` is `add_service`, and
--   so on; an operation returns the table, its result and the calls of the observer. Refresh is the
--   loop that the two `update_timeouted` functions share; it runs on the number of rounds that
--   `maxcount` allows, as the source's counter does. Steps is the life of a table.
-- - TrackerTable: `RITrackerTable` (src/tracker/trackertable.cxx). `onService` is `handle_service`,
--   and so on. A `shared_ptr<Region>` is the address of the region's node. The loops of the timer
--   are bounded by the source's own `limits`.
-- - RegionProduct: `RegionProduct` (src/tracker/regionproduct.cxx), with the plain-list catalogue
--   that specifies it.
-- - PubData, RegionSubCacher: the queue of updates of a region whose snapshot is under way
--   (src/tracker/pubdata.cxx, src/tracker/regionsubcacher.cxx).
-- - Channel: `RIPublisher` and `RISubscriber` (src/region/publisher.cxx,
--   src/tracker/subscriber.cxx).
-- - SnapshotClient: `SnapshotClientWorker` (src/snapshot/snapshotclientworker.cxx). The stage is the
--   handler that its reader is bound to; the builder is an interface. Transfer feeds it the frames
--   of the service, with a `RegionProduct` as its builder.
-- - SnapshotService: `SnapshotService` and `SnapshotServiceWorker` (src/snapshot/snapshotservice.cxx,
--   src/snapshot/snapshotserviceworker.cxx); the loop of `sendItems` runs on its `count`. Steps is
--   the sequence of the events of all clients.
-- - SnapshotTransfer: table, service, client and product together.
-- - RegionFactory, PubTracker: how a new region joins the tracker's table (src/tracker/
--   regionfactory.cxx, src/tracker/pubtracker.cxx). Steps is the sequence of the calls that are
--   heard, the products that the clients fill and their reports.
-- - BusProcesser: `BusProcesser` (src/region/busprocesser.cxx). `sendto_worker` runs on the number
--   of the idle workers: each round but the last takes one off.
-- - BusMsgReply: `BusMsgReply` (src/buscli/busmsgreply.cxx), the replies to a sender on the bus.
-- - BusWorker: `do_work` of the broker's worker (src/busbroker/busworker.cxx).
-- - BusSender: `BusSender` (src/buscli/bussender.cxx); the loop of `wait_reply` runs on the messages
--   that arrive before its poll times out, so the clock needs no bound.
-- - BusReceiver: `BusReceiver` (src/regioncli/busreceiver.cxx).
-- - RegionActor, RegionSession: the handlers of the requests to a region (src/region/regionactor.cxx)
--   and the client that makes them (src/regioncli/regionsession.cxx). Mirrored is a sequence of
--   calls of any sessions.
-- - TrackerActor, TrackerSession: the same for a tracker (src/tracker/trackeractor.cxx,
--   src/trackercli/trackersession.cxx). BusWorker/Routing is a worker with its session.
-- - Tests: the theorems at concrete states.
--
-- What is outside. The clock, the sockets and the timers are arguments: readings of the clock, the
-- messages that arrive, and whether an operation of a socket succeeds. The zmqx library is not in
-- the repository; what it receives is a parameter. Logging is left out, and with it what only a log
-- line reads: the id of the region that a payload is taken from. A client of the snapshot service is
-- known by the name that its messages carry, which stands for its envelope too. The memory of list nodes
-- and of untyped pointers is managed by the source's destructors and is not modelled. Start-up,
-- configuration and the threads, pipes and pollers that own an actor, a snapshot client or a service
-- are I/O and are not modelled.
pub mod Base
pub mod Words
pub mod Containers
pub mod RiTypes
pub mod Observer
pub mod RegionTable
pub mod RegionProduct
pub mod PubData
pub mod RegionSubCacher
pub mod TrackerTable
pub mod RegionActor
pub mod RegionSession
pub mod RegionFactory
pub mod PubTracker
pub mod TrackerActor
pub mod TrackerSession
pub mod SnapshotClient
pub mod SnapshotService
pub mod SnapshotTransfer
pub mod Channel
pub mod BusProcesser
pub mod BusMsgReply
pub mod BusWorker
pub mod BusReceiver
pub mod BusSender
pub mod Tests
