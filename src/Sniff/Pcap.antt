-- ===== src/Sniff/Pcap.antt =====
-- The loggers of src/moonsniff.cpp: `ms_log_pkts` and `pcap_log_pkts`. Numbers are stored as on the
-- little-endian machines that the program is built for.
pub mod Room
pub mod Reader
pub mod Parse
pub mod Log
pub mod Tests
use moon_gen_dpdk_v.Prelude.{
  ℕ, zero, suc, ◌+◌, ◌-◌, ◌*◌, ◌/◌, ◌%◌, ◌^◌, Bool, true, false, ◌||◌, Option, none, some, List, [],
  ◌∷◌, ◌++◌, ltb, leb, if◌then◌else◌, length, take, drop, u32, sub_u32,
}
use moon_gen_dpdk_v.Dpdk.{Mbuf}

-- A received packet: its buffer, and the bytes from `buf_addr + data_off` on.
pub record Frame : Type 0 where
  pub mbuf : Mbuf
  pub bytes : List ℕ

-- A number of `width` bytes, the lowest byte first.
abbrev pub store : ℕ → ℕ → List ℕ
store zero n = []
store (suc width) n = n % 256 ∷ store width (n / 256)

-- `*(uint32_t*)(data + offset)`; `none` is a read outside of the buffer.
unfoldable pub load_u32 : List ℕ → ℕ → Option ℕ
load_u32 bytes offset = elim (drop offset bytes) [
  | a ∷ b ∷ c ∷ d ∷ _ ↦ some (a + 256 * b + 65536 * c + 16777216 * d)
  | _ ↦ none
]

infixl 5 ◌>>=◌
abbrev pub ◌>>=◌ {ℓ κ} : {A : Type ℓ} {B : Type κ} → Option A → (A → Option B) → Option B
none >>= f = none
some a >>= f = f a

-- The two words of a time stamp at the end of the packet: `timestamp32[0]` and `timestamp32[1]`.
-- A packet of fewer bytes has none: the pointer lies before its data.
unfoldable pub trailing_stamp : Frame → Option (ℕ × ℕ)
unfolding load_u32
trailing_stamp f =
    if ltb f.mbuf.pkt_len 8
    then none
    else (load_u32 f.bytes (f.mbuf.pkt_len - 8) >>= λ low.
        load_u32 f.bytes (f.mbuf.pkt_len - 4) >>= λ high. some (low, high))

-- Whether the packet is logged at all.
abbrev pub is_stamped : Bool → Frame → Bool
is_stamped embedded f = embedded || f.mbuf.rx_timestamp

-- `timestamp = high * 1000000000 + low`, computed in 32 bits and only then widened.
unfoldable pub joined_stamp : ℕ → ℕ → ℕ
joined_stamp low high = u32 (u32 (high * 1_000_000_000) + low)

unfoldable pub log_timestamp : Bool → Frame → Option ℕ
unfolding trailing_stamp joined_stamp
log_timestamp true f = some f.mbuf.timestamp
log_timestamp false f = trailing_stamp f >>= λ (low, high). some (joined_stamp low high)

-- What `ms_log_pkts` appends to its file for one packet.
unfoldable pub log_entry : Bool → ℕ → Frame → Option (List ℕ)
unfolding log_timestamp load_u32
log_entry embedded seqnum_offset f =
    if is_stamped embedded f
    then (log_timestamp embedded f >>= λ timestamp.
        if ltb seqnum_offset f.mbuf.pkt_len
        then (load_u32 f.bytes seqnum_offset >>= λ identifier.
            some (store 8 timestamp ++ store 4 identifier))
        else some [])
    else some []

-- The loop over what was received.
unfoldable pub ms_log_pkts : Bool → ℕ → List Frame → Option (List ℕ)
unfolding log_entry
ms_log_pkts embedded seqnum_offset [] = some []
ms_log_pkts embedded seqnum_offset (f ∷ fs) = log_entry embedded seqnum_offset f >>= λ entry.
    ms_log_pkts embedded seqnum_offset fs >>= λ rest. some (entry ++ rest)

-- `pcap_hdr_t`, as `pcap_log_pkts` fills it.
unfoldable pub pcap_hdr : ℕ → List ℕ
pcap_hdr snap_len =
    store 4 0xA1B23C4D
    ++ (store 2 2 ++ (store 2 4 ++ (store 4 0 ++ (store 4 0 ++ (store 4 snap_len ++ store 4 1)))))

-- `pcaprec_hdr_t`
pub record PcapRecHdr : Type 0 where
  pub ts_sec : ℕ
  pub ts_usec : ℕ
  pub incl_len : ℕ
  pub orig_len : ℕ

unfoldable pub store_rec_hdr : PcapRecHdr → List ℕ
store_rec_hdr h =
    store 4 h.ts_sec ++ (store 4 h.ts_usec ++ (store 4 h.incl_len ++ store 4 h.orig_len))

abbrev pub initial_file_size : ℕ
initial_file_size = 512 * 1024 * 1024

-- The mapping: its size, the next offset, and the bytes below that offset.
pub record Capture : Type 0 where
  pub size : ℕ
  pub offset : ℕ
  pub file : List ℕ

-- How the handling of a packet ends: a write past the end of the mapping and a read past the end of
-- the packet's buffer are faults.
pub data Logged (A : Type 0) : Type 0 where
  logged : A → Logged A
  overrun : Logged A
  overread : Logged A

-- After `ftruncate`, `mmap` and the copy of the file's header.
unfoldable pub open_capture : ℕ → Capture
unfolding pcap_hdr
open_capture snap_len = record { size = initial_file_size; offset = 24; file = pcap_hdr snap_len }

-- `packetLengthAdjust`
abbrev pub adjust : Bool → ℕ
adjust true = 0
adjust false = 8

unfoldable pub included : Bool → ℕ → Frame → ℕ
included embedded snap_len f =
    let len = sub_u32 f.mbuf.pkt_len (adjust embedded) in if ltb len snap_len then len else snap_len

-- The test for the room that is left, and the growth of file and mapping, which is taken to succeed.
unfoldable pub grow : Capture → Frame → Capture
grow c f = if leb c.size (c.offset + f.mbuf.pkt_len + 8) then record c { size = c.size * 2 } else c

unfoldable pub split_stamp : Bool → Frame → Option (ℕ × ℕ)
unfolding trailing_stamp
split_stamp true f =
    some (u32 (f.mbuf.timestamp % 1_000_000_000), u32 (f.mbuf.timestamp / 1_000_000_000))
split_stamp false f = trailing_stamp f

-- The two copies into the mapping.
unfoldable pub append_record : Capture → PcapRecHdr → List ℕ → Logged Capture
unfolding store_rec_hdr
append_record c h bytes =
    if ltb c.size (c.offset + 16 + h.incl_len)
    then overrun
    else if ltb (length bytes) h.incl_len
    then overread
    else logged (record c {
      offset = c.offset + h.incl_len + 16;
      file = c.file ++ (store_rec_hdr h ++ take h.incl_len bytes);
    })

unfoldable pub rec_hdr : Bool → ℕ → Frame → ℕ × ℕ → PcapRecHdr
unfolding included
rec_hdr embedded snap_len f (low, high) = record {
  ts_sec = high;
  ts_usec = low;
  incl_len = included embedded snap_len f;
  orig_len = sub_u32 f.mbuf.pkt_len (adjust embedded);
}

unfoldable pub log_record : Bool → ℕ → Capture → Frame → Logged Capture
log_record embedded snap_len c f = elim (split_stamp embedded f) [
  | none ↦ overread
  | some stamp ↦ append_record (grow c f) (rec_hdr embedded snap_len f stamp) f.bytes
]

-- A packet of the file, as a reader sees it.
pub record Packet : Type 0 where
  pub hdr : PcapRecHdr
  pub content : List ℕ

-- The loop over what was received while the time runs; the file is cut to `offset` at its end.
unfoldable pub pcap_log_pkts : Bool → ℕ → Capture → List Frame → Logged Capture
pcap_log_pkts embedded snap_len c [] = logged c
pcap_log_pkts embedded snap_len c (f ∷ fs) =
    let skipped = pcap_log_pkts embedded snap_len c fs in
    let after : Logged Capture = elim (log_record embedded snap_len c f) [
      | logged c' ↦ pcap_log_pkts embedded snap_len c' fs
      | overrun ↦ overrun
      | overread ↦ overread
    ] in
    if is_stamped embedded f then after else skipped
