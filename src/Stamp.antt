-- ===== src/Stamp.antt =====
-- src/software-timestamping.c: a packet that carries the cycle at which it was sent.
pub mod Readback
pub mod Tests
use moon_gen_dpdk_v.Prelude.{
  ℕ, ◌+◌, ◌*◌, Bool, List, [], ◌∷◌, ◌++◌, leb, if◌then◌else◌, length, take, drop,
}
use moon_gen_dpdk_v.Sniff.Pcap.{store}

-- A round of the loop: `is_running(0)`, what `read_rdtsc` gives, and whether the NIC takes the packet.
pub record Round : Type 0 where
  pub is_running : Bool
  pub tsc : ℕ
  pub accepted : Bool

-- How the function ends, with the bytes of the packet's buffer from its data on: the packet was
-- sent, or the program stops; a write past the buffer; or the rounds end within the loop.
pub data Stamping : Type 0 where
  sent : List ℕ → Stamping
  stopped : List ℕ → Stamping
  overrun : Stamping
  cut : List ℕ → Stamping

-- The eight bytes of place `offs` of an array of 64-bit words, in little-endian order.
abbrev pub put_u64 : List ℕ → ℕ → ℕ → List ℕ
put_u64 bytes offs value = take (8 * offs) bytes ++ (store 8 value ++ drop (8 * offs + 8) bytes)

unfoldable pub moongen_send_packet_with_timestamp : ℕ → List Round → List ℕ → Stamping
moongen_send_packet_with_timestamp offs [] bytes = cut bytes
moongen_send_packet_with_timestamp offs (r ∷ rounds) bytes =
    let stamped = put_u64 bytes offs r.tsc in
    let again = moongen_send_packet_with_timestamp offs rounds stamped in
    let written = if r.accepted then sent stamped else again in
    if r.is_running
    then if leb (8 * offs + 8) (length bytes) then written else overrun
    else stopped bytes
