-- ===== src/Stamp/Tests.antt =====
-- Runs of src/software-timestamping.c at concrete packets.
use moon_gen_dpdk_v.Prelude.{ℕ, refl, true, false, List, [], ◌∷◌, arith, ◌≡◌}
use moon_gen_dpdk_v.Stamp.{Round, overrun, moongen_send_packet_with_timestamp}
use moon_gen_dpdk_v.Stamp.Readback.{
  SentWith, IsRefused, moongen_send_packet_with_timestamp-SentWith,
}

abbrev refused_at : ℕ → Round
refused_at tsc = record { is_running = true; tsc = tsc; accepted = false }

abbrev taken_at : ℕ → Round
taken_at tsc = record { is_running = true; tsc = tsc; accepted = true }

abbrev payload : List ℕ
payload = 1 ∷ 2 ∷ 3 ∷ 4 ∷ 5 ∷ 6 ∷ 7 ∷ 8 ∷ 9 ∷ 10 ∷ 11 ∷ 12 ∷ 13 ∷ 14 ∷ 15 ∷ 16 ∷ 17 ∷ []

refused_at-IsRefused : (tsc : ℕ) → IsRefused (refused_at tsc)
refused_at-IsRefused tsc = record { running = refl; refused = refl }

moongen_send_packet_with_timestamp_overrun :
    moongen_send_packet_with_timestamp 2 (taken_at 4660 ∷ []) payload ≡ overrun
unfolding moongen_send_packet_with_timestamp
moongen_send_packet_with_timestamp_overrun = refl

moongen_send_packet_with_timestamp-SentWith_example : SentWith 1 4660 payload (
    moongen_send_packet_with_timestamp 1
      (refused_at 4000 ∷ refused_at 4300 ∷ taken_at 4660 ∷ [])
      payload)
moongen_send_packet_with_timestamp-SentWith_example =
    moongen_send_packet_with_timestamp-SentWith 1 (refused_at 4000 ∷ refused_at 4300 ∷ [])
      (taken_at 4660) [] payload (refused_at-IsRefused 4000, (refused_at-IsRefused 4300, tt)) refl
      refl (omega arith) (omega arith)
