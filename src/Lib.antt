-- ===== src/Lib.antt =====
-- MoonGen's native code: the rate limiters, the launch-time emulator, the link emulator MoonEm and
-- the measuring tool MoonSniff, all of them loops on DPDK's packet buffers, and the SNMP binding
-- that the RFC 2544 benchmark sets up a router with.
--
-- Which file models what (paths from the repository's root):
-- Dpdk has the fields of a packet buffer. Double: C++'s double as an interface, with a fixed-point
--   instance to run the models on, for src/histogram.cpp, src/moonsniff.cpp and the rates of MoonEm.
--   Prelude: tests, lists, machine words and integers.
-- Crc is src/crc-ratecontrol.cpp and its header. `send_packets` fills the gap before each packet
--   with frames of a bad checksum; `send_load` is its loop, `fill` step 1, `send_one` the body, and
--   `empty_delay`, `send_timestamp_packet` and the registers are the other members.
-- Launch is src/launch-timestamp.cpp and its header. `emulate_all` is the loop of `send_batch`, and
--   `transmit_loop` consists of `start` and a round for each dequeue from the ring; both use Crc.
-- Moonem: Moonem/Loss is src/moonem_common.h (`wyhash64`, `ge_drop`, `netem_drop`, `applyLoss`);
--   Moonem/Delay is the delay receiver, the plain forwarder and the transmitter of
--   src/moonem_sw.cpp, with the abstract queue of the two loops in Moonem/Delay/Fifo, Moonem/Rate
--   its token bucket and its leaky bucket, Moonem/Rate/Line the former with the transmitter,
--   Moonem/Hardware the receivers of src/moonem.cpp, and Moonem/Ring the interface of the
--   `rte_ring` that they feed.
-- Sniff is src/moonsniff.cpp. Sniff/Table is the live mode's hit list with its statistics,
--   Sniff/Table/Locks the same list with threads that lock its entries, statement by statement, and
--   Sniff/Pcap the two loggers with the layout of their files.
-- Hist is src/histogram.cpp: `update` with the choice of the bucket and the map as an ordered list;
--   Hist/Bag has the values as a quotient that forgets their order.
-- Limiter is src/software-rate-limiter.cpp: `send_or_stop` is the body of its loops behind the
--   dequeue, Limiter/Loops has the three loops, and `run_limiter` is their entry points.
-- Stamp is src/software-timestamping.c.
-- Snmp is rfc2544/utils/snmpc.c: Snmp has the texts and `ip2oid`, Snmp/Session what the functions
--   of a session share, and Snmp/Entries those that make and remove routes and addresses.
--
-- State and code that is not in the repository. Objects and a loop's locals are records that the
-- operations take and return. The packet pool is a function that returns a buffer and the next
-- pool, or none; the NIC is the list of the bursts that it is handed; the cycle counter is the list
-- of its readings; a thread is the sequence of its rounds, with what the ring or the NIC gave in
-- each. A read or a write outside of an array, or through a null pointer, is an outcome of its own.
-- Machine words wrap as in the code.
--
-- Bounds and fuel. `fill` has as fuel one more than the delay in bytes, and `release_all` the
-- number of the packets: each round takes at least one away, and the theorems on them show that the
-- fuel does not run out. `grab` halves a size of 64 at most six times, and `put_digits` writes at
-- most ten digits, enough for 32 bits. The loops of Limiter and Stamp end with the list of their
-- rounds. The sizes that the CRC-based rate limiter is used with are in `IsSane`, `IsReady` and
-- `IsSynced`: an invalid packet takes at least two minimal gaps and fewer than 2 ^ 16 bytes.
--
-- Parameters. `ring_dequeue` of libmoon is a function of the ring and the number wanted, and the
-- laws of a queue or of an all-or-nothing queue are hypotheses of the theorems that need them. Of
-- net-snmp the model has what the binding calls, without the lines that `addRouteEntry` prints of
-- its request; `IsReader` is its documentation of `read_objid`. The bytes that `inet_pton` leaves
-- are a function of the text, also for a text that is no address.
--
-- Not modelled: src/moongen-main.cpp, which only calls libraries, `luaopen_snmp`, and the scripts
-- in Lua. The statistics of MoonSniff, which no lock guards, are modelled for one testing thread.
-- Of doubles, the interface leaves the rounding open: nothing is shown of the values of mean and
-- variance, and the theorems on rates name the laws that they rely on, with a bound on the numbers
-- involved and with the error of the rounding as a parameter.
pub mod Prelude
pub mod Dpdk
pub mod Double
pub mod Crc
pub mod Launch
pub mod Moonem
pub mod Sniff
pub mod Snmp
pub mod Hist
pub mod Limiter
pub mod Stamp
