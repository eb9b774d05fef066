-- ===== src/Sniff/Pcap/Parse.antt =====
-- The capture file of `pcap_log_pkts` in src/moonsniff.cpp, read back: an independent reader of the
-- format finds the packets that were logged.
use moon_gen_dpdk_v.Prelude.{
  ℕ, ◌-◌, ◌/◌, ◌%◌, ◌≤◌, ◌≡◌, ◌⊎◌, Option, true, false, some, List, [], ◌∷◌, ◌++◌, All, length,
  take, drop, map, concat,
}
use moon_gen_dpdk_v.Sniff.Pcap.{Frame, Packet, Capture, Logged, logged}
use moon_gen_dpdk_v.Sniff.Pcap.Room.{IsRoomy}
use moon_gen_dpdk_v.Sniff.Pcap.Reader.{IsWritten, read_u32, encode, read_packets}

-- The packet of the file that a frame stands for, as the format has it: the last eight bytes are a
-- time stamp, nanoseconds and then seconds, and not part of the packet; of the rest the file has
-- what the snap length leaves.
pub record IsLogOf (snap_len : ℕ) (f : Frame) (p : Packet) : Type 0 where
  pub after_nanoseconds : List ℕ
  pub nanoseconds :
      read_u32 (drop (f.mbuf.pkt_len - 8) f.bytes) ≡ some (p.hdr.ts_usec, after_nanoseconds)
  pub after_seconds : List ℕ
  pub seconds : read_u32 (drop (f.mbuf.pkt_len - 4) f.bytes) ≡ some (p.hdr.ts_sec, after_seconds)
  pub orig_len : p.hdr.orig_len ≡ f.mbuf.pkt_len - 8
  pub incl_le : (p.hdr.incl_len ≤ p.hdr.orig_len) × (p.hdr.incl_len ≤ snap_len)
  pub incl_len : (p.hdr.incl_len ≡ p.hdr.orig_len) ⊎ (p.hdr.incl_len ≡ snap_len)
  pub content : p.content ≡ take p.hdr.incl_len f.bytes

-- The packets that the frames stand for: those with a time stamp, in order.
abbrev pub Logs : ℕ → List Frame → List Packet → Type 0
Logs snap_len [] ps = ps ≡ []
Logs snap_len (f ∷ fs) ps =
    ((f.mbuf.rx_timestamp ≡ false) × Logs snap_len fs ps)
    ⊎ ((p : Packet) × (rest : List Packet) × (f.mbuf.rx_timestamp ≡ true)
        × IsLogOf snap_len f p
        × (ps ≡ p ∷ rest)
        × Logs snap_len fs rest)

-- The header of a capture file with time stamps in nanoseconds, of version 2.4, for Ethernet.
abbrev pub file_header : ℕ → List ℕ
file_header snap_len =
    0x4D
    ∷ 0x3C
    ∷ 0xB2
    ∷ 0xA1
    ∷ 2
    ∷ 0
    ∷ 4
    ∷ 0
    ∷ 0
    ∷ 0
    ∷ 0
    ∷ 0
    ∷ 0
    ∷ 0
    ∷ 0
    ∷ 0
    ∷ snap_len % 256
    ∷ snap_len / 256 % 256
    ∷ snap_len / 256 / 256 % 256
    ∷ snap_len / 256 / 256 / 256 % 256
    ∷ 1
    ∷ 0
    ∷ 0
    ∷ 0
    ∷ []

-- What a run adds to the file.
pub record Captured (snap_len : ℕ) (c : Capture) (fs : List Frame) (result : Logged Capture)
    : Type 0 where
  pub c' : Capture
  pub packets : List Packet
  pub returns : result ≡ logged c'
  pub roomy : IsRoomy c'
  pub logs : Logs snap_len fs packets
  pub written : All IsWritten packets
  pub file : c'.file ≡ c.file ++ concat (map encode packets)

-- What a capture leaves behind, and what a reader makes of it.
pub record IsCapture (snap_len : ℕ) (fs : List Frame) (result : Logged Capture) : Type 0 where
  pub c' : Capture
  pub packets : List Packet
  pub returns : result ≡ logged c'
  pub length_file : length c'.file ≡ c'.offset
  pub logs : Logs snap_len fs packets
  pub header : take 24 c'.file ≡ file_header snap_len
  pub reads : read_packets (length packets) (drop 24 c'.file) ≡ some packets
