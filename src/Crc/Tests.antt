-- ===== src/Crc/Tests.antt =====
-- The rate limiter of src/crc-ratecontrol.cpp on concrete loads.
use moon_gen_dpdk_v.Prelude.{
  ℕ, suc, ◌+◌, ◌<◌, ◌≡◌, refl, false, Option, none, some, List, [], ◌∷◌, ◌++◌, arith, concat,
}
use moon_gen_dpdk_v.Dpdk.{Mbuf, wire_bytes}
use moon_gen_dpdk_v.Crc.{done, null_write, RateLimiterCrc, BadSent, create, delay_share, send_load}
use moon_gen_dpdk_v.Crc.Frames.{min_gap, IsSane, Ends}
use moon_gen_dpdk_v.Crc.Fill.{Exhausted}
use moon_gen_dpdk_v.Crc.Load.{kept}
use moon_gen_dpdk_v.Crc.Pace.{
  asked_bytes, IsReady, Paces, starting, send_load-Paces, send_load-bytes, send_load-drift,
}
use moon_gen_dpdk_v.Crc.Lost.{with_buffer, send_load-null_write, send_load_lost}

abbrev pub packet : ℕ → ℕ → ℕ → Mbuf
packet id len delay = record {
  id = id;
  pkt_len = len;
  data_len = len;
  timestamp = delay;
  burst_size = 0;
  tx_timestamp = false;
  rx_timestamp = false;
}

-- A pool that never runs empty, and one that is empty.
abbrev pub endless : ℕ → Option (Mbuf × ℕ)
endless n = some (packet n 0 0, suc n)

abbrev empty : ℕ → Option (Mbuf × ℕ)
empty n = none

abbrev pub limiter : RateLimiterCrc
limiter = create 0 0 60 24 1500

abbrev load : List (Option Mbuf)
load = some (packet 1 64 500) ∷ none ∷ some (packet 2 64 100) ∷ []

abbrev pub nothing_sent : BadSent
nothing_sent = record { pkts = λ _. 0; bytes = λ _. 0 }

pub limiter-IsSane : IsSane limiter
unfolding create
limiter-IsSane = record {
  gap_ge = omega arith;
  invalid_ge = omega arith;
  invalid_ge_fifty = omega arith;
  invalid_lt = omega arith;
}

ready : IsReady limiter load
unfolding create
ready = record {
  sane = limiter-IsSane;
  missing_lt = omega arith;
  short = (omega arith, (omega arith, tt));
}

-- Sizes just over the largest invalid packet are split in two.
delay_share_test :
    (delay_share 1500 1000 ≡ 1000) × (delay_share 1500 1600 ≡ 800) × (delay_share 1500 3000 ≡ 1500)
unfolding delay_share
delay_share_test = (refl, refl, refl)

send_load-Paces_example :
    Ends (Exhausted endless) (Paces limiter load) (send_load endless limiter load 0)
send_load-Paces_example = send_load-Paces endless limiter load 0 ready

send_load-bytes_example :
    Ends
      (Exhausted endless)
      (λ r.
        wire_bytes limiter.packet_overhead (concat r.1.sent) + r.0.previous_missing_delay
        ≡ limiter.previous_missing_delay + asked_bytes limiter (kept load))
      (send_load endless limiter load 0)
send_load-bytes_example = send_load-bytes endless limiter load 0 ready refl

send_load-drift_example :
    Ends
      (Exhausted endless)
      (λ r.
        (front : List Mbuf) × (back : List Mbuf) × (short : ℕ) × (concat r.1.sent ++ r.1.buffer
          ≡ front ++ packet 2 64 100 ∷ back)
        × (wire_bytes limiter.packet_overhead front + short
            ≡ limiter.previous_missing_delay + asked_bytes limiter (packet 1 64 500 ∷ []) + 100)
        × (short < min_gap limiter))
      (send_load endless limiter load 0)
send_load-drift_example =
    send_load-drift endless limiter load 0 ready (packet 1 64 500 ∷ []) (packet 2 64 100) [] refl

send_load-null_write_example : send_load empty limiter (some (packet 1 64 500) ∷ []) 0 ≡ null_write
unfolding create
send_load-null_write_example =
    send_load-null_write empty limiter limiter-IsSane (packet 1 64 500) [] 0 refl (omega arith)
      (omega arith)

send_load_lost_example :
    send_load endless limiter (some (packet 1 64 0) ∷ none ∷ []) 0
    ≡ done (limiter, with_buffer endless limiter limiter-IsSane (starting 0) (packet 1 64 0 ∷ []))
unfolding create
send_load_lost_example =
    send_load_lost endless limiter limiter-IsSane (packet 1 64 0 ∷ []) 0 (refl, tt) (omega arith)
      (omega arith)
