-- ===== src/Sniff/Pcap/Room.antt =====
-- The room in the mapping of `pcap_log_pkts` in src/moonsniff.cpp.
use moon_gen_dpdk_v.Prelude.{
  ℕ, zero, suc, ◌+◌, ◌-◌, ◌*◌, ◌/◌, ◌^◌, ◌≤◌, ◌<◌, ◌≡◌, refl, ap, Bool, true, false, Option, none,
  some, List, [], ◌∷◌, ◌++◌, arith, All, length, length-append, length-take, take, drop,
  length-drop, le→ltb,
}
use moon_gen_dpdk_v.Sniff.Pcap.{
  Frame, load_u32, trailing_stamp, PcapRecHdr, Capture, Logged, logged, overrun, adjust, included,
  grow, split_stamp, append_record, store_rec_hdr, rec_hdr, log_record, initial_file_size, store,
}

abbrev pub IsBytes : List ℕ → Type 0
IsBytes = All (λ b. b < 256)

-- The room that `pcap_log_pkts` keeps between two packets.
pub record IsRoomy (c : Capture) : Type 0 where
  pub size_ge : initial_file_size ≤ c.size
  pub offset_le : c.offset ≤ c.size
  pub filled : length c.file ≡ c.offset

-- A packet whose buffer holds it, not longer than an Ethernet frame can be, with room for the stamp.
pub record Fits (f : Frame) : Type 0 where
  pub len_ge : 8 ≤ f.mbuf.pkt_len
  pub len_lt : f.mbuf.pkt_len < 2 ^ 16
  pub held : f.mbuf.pkt_len ≤ length f.bytes
  pub are_bytes : IsBytes f.bytes

IsBytes-drop : (n : ℕ) (bs : List ℕ) → IsBytes bs → IsBytes (drop n bs)
IsBytes-drop zero bs h = h
IsBytes-drop (suc n) [] h = tt
IsBytes-drop (suc n) (b ∷ bs) (h, hs) = IsBytes-drop n bs hs

abbrev first_word : List ℕ → Option ℕ
first_word bs = elim bs [
  | a ∷ b ∷ c ∷ d ∷ _ ↦ some (a + 256 * b + 65536 * c + 16777216 * d)
  | _ ↦ none
]

first_word-some :
    (bs : List ℕ) → 4 ≤ length bs → IsBytes bs → (v : ℕ) × (first_word bs ≡ some v) × (v < 2 ^ 32)
first_word-some (a ∷ b ∷ c ∷ d ∷ bs) h (p, (q, (r, (s, _)))) =
    (a + 256 * b + 65536 * c + 16777216 * d, refl, omega arith)
first_word-some _ h k = absurd (omega arith)

pub load_u32-some :
    (bs : List ℕ) (offset : ℕ)
    → offset + 4 ≤ length bs
    → IsBytes bs
    → (v : ℕ) × (load_u32 bs offset ≡ some v) × (v < 2 ^ 32)
unfolding load_u32
load_u32-some bs offset h k =
    first_word-some (drop offset bs) (omega (arith, length-drop offset bs))
      (IsBytes-drop offset bs k)

trailing_stamp-some :
    (f : Frame)
    → Fits f
    → (low : ℕ) × (high : ℕ) × (trailing_stamp f ≡ some (low, high))
      × (low < 2 ^ 32)
      × (high < 2 ^ 32)
unfolding trailing_stamp
trailing_stamp-some f h =
    let (low, e, small) =
      load_u32-some f.bytes (f.mbuf.pkt_len - 8) (omega (arith, h.len_ge, h.held)) h.are_bytes in
    let (high, e', small') =
      load_u32-some f.bytes (f.mbuf.pkt_len - 4) (omega (arith, h.len_ge, h.held)) h.are_bytes in
    (low, high, rw (le→ltb f.mbuf.pkt_len 8 h.len_ge, e, e') refl, small, small')

-- Every packet has a stamp of two words.
pub split_stamp-some :
    (embedded : Bool) (f : Frame)
    → Fits f
    → (low : ℕ) × (high : ℕ) × (split_stamp embedded f ≡ some (low, high))
      × (low < 2 ^ 32)
      × (high < 2 ^ 32)
unfolding split_stamp
split_stamp-some true f h = (_, _, refl, omega arith, omega arith)
split_stamp-some false f h = trailing_stamp-some f h

length-store : (width n : ℕ) → length (store width n) ≡ width
length-store zero n = refl
length-store (suc width) n = ap suc (length-store width (n / 256))

pub length-store_rec_hdr : (h : PcapRecHdr) → length (store_rec_hdr h) ≡ 16
unfolding store_rec_hdr
length-store_rec_hdr h = refl

pub included-le :
    (snap_len : ℕ) (embedded : Bool) (f : Frame)
    → Fits f
    → (included embedded snap_len f + adjust embedded ≤ f.mbuf.pkt_len)
      × (included embedded snap_len f < 2 ^ 16)
unfolding included
included-le snap_len true f h = ground (arith, h.len_ge, h.len_lt)
included-le snap_len false f h = ground (arith, h.len_ge, h.len_lt)

-- The record of a packet goes to the end of the file.
abbrev pub appended : Capture → PcapRecHdr → List ℕ → Capture
appended c h bytes = record c {
  offset = c.offset + h.incl_len + 16;
  file = c.file ++ (store_rec_hdr h ++ take h.incl_len bytes);
}

append_record-appended :
    (c : Capture) (h : PcapRecHdr) (bytes : List ℕ)
    → c.offset + 16 + h.incl_len ≤ c.size
    → h.incl_len ≤ length bytes
    → append_record c h bytes ≡ logged (appended c h bytes)
unfolding append_record
append_record-appended c h bytes room held =
    rw (le→ltb c.size (c.offset + 16 + h.incl_len) room, le→ltb (length bytes) h.incl_len held) refl

appended-IsRoomy :
    (c : Capture) (h : PcapRecHdr) (bytes : List ℕ)
    → IsRoomy c
    → c.offset + 16 + h.incl_len ≤ c.size
    → h.incl_len ≤ length bytes
    → IsRoomy (appended c h bytes)
appended-IsRoomy c h bytes r room held = record {
  size_ge = r.size_ge;
  offset_le = omega arith;
  filled = omega (
    arith,
    r.filled,
    length-append c.file (store_rec_hdr h ++ take h.incl_len bytes),
    length-append (store_rec_hdr h) (take h.incl_len bytes),
    length-take h.incl_len bytes,
    length-store_rec_hdr h,
  );
}

grow-IsRoomy :
    (c : Capture) (f : Frame)
    → IsRoomy c
    → Fits f
    → IsRoomy (grow c f)
      × (c.offset + f.mbuf.pkt_len + 8 < (grow c f).size)
      × ((grow c f).offset ≡ c.offset)
      × ((grow c f).file ≡ c.file)
unfolding grow
grow-IsRoomy c f r h = ground (arith, r.size_ge, r.offset_le, r.filled, h.len_lt)

-- What logging a packet adds to the file: a record with its stamp, and its first bytes.
pub record Recorded (embedded : Bool) (snap_len : ℕ) (c : Capture) (f : Frame)
    (result : Logged Capture) : Type 0 where
  pub low : ℕ
  pub high : ℕ
  pub stamped : split_stamp embedded f ≡ some (low, high)
  pub low_lt : low < 2 ^ 32
  pub high_lt : high < 2 ^ 32
  pub c' : Capture
  pub returns : result ≡ logged c'
  pub roomy : IsRoomy c'
  pub file :
      let hdr = rec_hdr embedded snap_len f (low, high) in
      c'.file ≡ c.file ++ (store_rec_hdr hdr ++ take hdr.incl_len f.bytes)

-- Without embedded time stamps, in a mapping with the room that the loop keeps, a packet that fits
-- its buffer is recorded without a write past the mapping's end: one doubling makes room for it,
-- and the room is kept.
pub log_record-Recorded :
    (snap_len : ℕ) (c : Capture) (f : Frame)
    → IsRoomy c
    → Fits f
    → Recorded false snap_len c f (log_record false snap_len c f)
unfolding log_record rec_hdr
log_record-Recorded snap_len c f r h =
    let (low, high, e, low_lt, high_lt) = split_stamp-some false f h in
    let (roomy, room, same_offset, same_file) = grow-IsRoomy c f r h in
    let hdr = rec_hdr false snap_len f (low, high) in
    let (le, small) = included-le snap_len false f h in
    let fits : (grow c f).offset + 16 + hdr.incl_len ≤ (grow c f).size =
      omega (arith, same_offset, le, room) in
    let held : hdr.incl_len ≤ length f.bytes = omega (arith, le, h.held) in
    rw (e, log_record)
      (record {
        low = low;
        high = high;
        stamped = e;
        low_lt = low_lt;
        high_lt = high_lt;
        c' = appended (grow c f) hdr f.bytes;
        returns = append_record-appended (grow c f) hdr f.bytes fits held;
        roomy = appended-IsRoomy (grow c f) hdr f.bytes roomy fits held;
        file = ap (λ xs. xs ++ (store_rec_hdr hdr ++ take hdr.incl_len f.bytes)) same_file;
      })

-- With embedded time stamps nothing is cut off the packet, and the room that is tested for falls 8
-- bytes short of the record: at each offset where the packet and 8 bytes just fit below the size but
-- its record does not, an unsnapped packet is written past the mapping's end.
pub log_record-overrun :
    (snap_len : ℕ) (c : Capture) (f : Frame)
    → f.mbuf.pkt_len ≤ snap_len
    → f.mbuf.pkt_len < 2 ^ 16
    → c.offset + f.mbuf.pkt_len + 8 < c.size
    → c.size < c.offset + f.mbuf.pkt_len + 16
    → log_record true snap_len c f ≡ overrun
unfolding log_record rec_hdr split_stamp grow append_record included
log_record-overrun snap_len c f snap small room short = ground arith
