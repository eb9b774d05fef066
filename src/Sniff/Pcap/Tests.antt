-- ===== src/Sniff/Pcap/Tests.antt =====
-- The loggers of src/moonsniff.cpp on concrete packets.
use moon_gen_dpdk_v.Prelude.{◌+◌, ◌*◌, ◌^◌, ◌<◌, ◌≡◌, refl, ◌↔◌, true, false, some, [], ◌∷◌, arith}
use moon_gen_dpdk_v.Crc.Tests.{packet}
use moon_gen_dpdk_v.Sniff.Pcap.{
  Frame, Capture, overrun, trailing_stamp, log_timestamp, log_record, open_capture,
  initial_file_size,
}
use moon_gen_dpdk_v.Sniff.Pcap.Room.{IsRoomy, log_record-overrun}
use moon_gen_dpdk_v.Sniff.Pcap.Log.{log_timestamp-exact}

-- Twelve bytes: four of data, then 7 nanoseconds and 5 seconds.
abbrev frame : Frame
frame = record {
  mbuf = record (packet 1 12 0) { rx_timestamp = true };
  bytes = 1 ∷ 2 ∷ 3 ∷ 4 ∷ 7 ∷ 0 ∷ 0 ∷ 0 ∷ 5 ∷ 0 ∷ 0 ∷ 0 ∷ [];
}

trailing_stamp_test : trailing_stamp frame ≡ some (7, 5)
unfolding trailing_stamp
trailing_stamp_test = refl

abbrev opened : Capture
opened = open_capture 96

opened-IsRoomy : IsRoomy opened
unfolding open_capture
opened-IsRoomy = record { size_ge = omega arith; offset_le = omega arith; filled = refl }

-- 21 bytes are left of the mapping, and the record takes 28.
abbrev nearly_full : Capture
nearly_full = record { size = initial_file_size; offset = 536870891; file = [] }

log_record-overrun_example : log_record true 96 nearly_full frame ≡ overrun
log_record-overrun_example =
    log_record-overrun 96 nearly_full frame (omega arith) (omega arith) (omega arith) (omega arith)

log_timestamp-exact_example :
    (log_timestamp false frame ≡ some (5 * 1_000_000_000 + 7)) ↔ (5 * 1_000_000_000 + 7 < 2 ^ 32)
unfolding trailing_stamp
log_timestamp-exact_example = log_timestamp-exact frame 7 5 (omega arith) refl
