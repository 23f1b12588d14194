-- ===== src/Lib.antt =====
-- LockGrid: a mesh network for 802.15.4 radios, written in C (subsys/lockgrid, with its public header
-- in include/lockgrid/lockgrid.h). A node keeps links to its neighbours, each with a schedule of radio
-- events on a hopping channel; one scheduler gives the radio to one event at a time; a routing layer
-- ranks the neighbours by the cost of their path to a backhaul; and each node takes on a role by what
-- it hears. All of the state of the program is one structure, `lg`; the modules here take the fields
-- that a source file works on as a record, time as an argument, and return the record after the call.
--
-- Files, and the sources that they model:
--   Prelude: numbers, lists, tests, signed integers and bits, shared by all.
--   Config: the options of subsys/lockgrid/Kconfig that the modelled code reads, with their ranges.
--   Types: `struct lg_neigh` and the enumerations of subsys/lockgrid/lg_internal.h. The fields stand
--     in one record for each group of the structure's comments.
--   Frame: subsys/lockgrid/lg_frame.c, the header of a frame, and the byte order helpers.
--   Sec: subsys/lockgrid/lg_sec.c: the replay filter, with the set of all counters ever accepted as its
--     specification (Sec/Seen), the nonce (Sec/Nonce), the encryption of frames over a cipher
--     (Sec/Protect), and hashes, keys and certificates over PSA Crypto (Sec/Identity).
--   Chan: subsys/lockgrid/lg_chan.c, the statistics of channels, the channel map and the hop sequence.
--   Link: the schedule of subsys/lockgrid/lg_link.c: receive windows, event numbers, anchors and the
--     catch-up loop, the changes of parameters that two ends agree on (Link/Control), and data frames
--     (Link/Data).
--   Neigh: subsys/lockgrid/lg_neigh.c, the neighbour table and the metrics of a link.
--   Route: subsys/lockgrid/lg_route.c, the rank, the parents (Route), the downward routes
--     (Route/Routes), advertisements and hearsay (Route/Adverts), and the cache of seen messages
--     (Route/Duplicates).
--   Sched: the candidates of subsys/lockgrid/lg_sched.c and the choice among them.
--   Disc: subsys/lockgrid/lg_disc.c, the times of scans and beacons, beacons and their join windows
--     (Disc/Beacon), scanning and tracking (Disc/Scan), and whom to join (Disc/Candidate).
--   Join: subsys/lockgrid/lg_join.c, the handshake: messages in fragments (Join, Join/Fragments), the
--     steps of both sides (Join/Steps), and slots, radio events and received frames (Join/Events).
--   Roles: subsys/lockgrid/lg_role.c, promotion and demotion.
--   Arbiter: subsys/lockgrid/lg_ts_direct.c, the arbiter of a node that owns its radio.
--   Core: the tuning of subsys/lockgrid/lg_core.c, its rings of received frames and notifications
--     (Core/Ring), and the transmit queue (Core/Queue).
--
-- Links ask channels for the hop and frames for the length of an event; the scheduler asks links for
-- their next event; routing reads the metrics of the neighbour table, and roles read rank and routes.
--
-- Numbers are natural numbers; where the C type can wrap, the reduction is written out. A pointer into
-- a table is an index. The catch-up loop waits for a clock, so it takes fuel: `none` stands for a run
-- that has not ended, and a fuel above the number of an event that is late enough suffices. All other
-- loops recur on a list or a count.
--
-- Ciphers, hashes, key agreement and signatures are calls of PSA Crypto, which is not part of the
-- repository: they are records of functions (Aead, Psa), arguments of the definitions that use them,
-- and a theorem names what it needs of them. The values that a node draws at random are arguments too.
--
-- Not modelled: the radio driver (lg_phy_nrf.c) and the MPSL arbiter (lg_ts_mpsl.c), which are glue to
-- hardware and a closed library; the event handlers of links, but for what the frames of an event do
-- to a change of parameters (Link/Control), the reception of beacons, the dispatch of frames and
-- start-up of lg_core.c, power accounting, tracing, logging, samples and tests. Exchanges between the
-- two ends of a link are modelled on one clock that both read.
pub mod Prelude
pub mod Config
pub mod Types
pub mod Frame
pub mod Sec
pub mod Chan
pub mod Link
pub mod Neigh
pub mod Route
pub mod Sched
pub mod Arbiter
pub mod Roles
pub mod Core
pub mod Disc
pub mod Join
