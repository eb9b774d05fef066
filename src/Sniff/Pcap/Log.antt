-- ===== src/Sniff/Pcap/Log.antt =====
-- The time stamps that `ms_log_pkts` of src/moonsniff.cpp writes.
use mathlib.Core.Option.{some-injective}
use moon_gen_dpdk_v.Prelude.{ℕ, ◌+◌, ◌*◌, ◌^◌, ◌<◌, ◌≡◌, ap, ◌↔◌, false, some, arith}
use moon_gen_dpdk_v.Sniff.Pcap.{Frame, trailing_stamp, joined_stamp, log_timestamp}

joined_stamp-exact :
    (low high : ℕ)
    → low < 2 ^ 32
    → (joined_stamp low high ≡ high * 1_000_000_000 + low) ↔ (high * 1_000_000_000 + low < 2 ^ 32)
unfolding joined_stamp
joined_stamp-exact low high l = (λ e. omega arith, λ h. omega arith)

-- The time stamp that is logged for a packet whose last eight bytes are `low` nanoseconds and `high`
-- seconds is the time that they stand for exactly if that time, in nanoseconds, lies below 2 ^ 32,
-- which is 4.3 seconds.
pub log_timestamp-exact :
    (f : Frame) (low high : ℕ)
    → low < 2 ^ 32
    → trailing_stamp f ≡ some (low, high)
    → (log_timestamp false f ≡ some (high * 1_000_000_000 + low))
      ↔ (high * 1_000_000_000 + low < 2 ^ 32)
unfolding log_timestamp
log_timestamp-exact f low high l e = rw e (
  λ same. (joined_stamp-exact low high l).0 (some-injective _ _ same),
  λ h. ap some ((joined_stamp-exact low high l).1 h),
)
