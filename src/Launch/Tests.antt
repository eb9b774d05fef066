-- ===== src/Launch/Tests.antt =====
-- The delay emulator of src/launch-timestamp.cpp on concrete batches, at 10 Gbit/s.
use mathlib.Core.Path.{subst}
use mathlib.Core.Option.{some-injective}
use moon_gen_dpdk_v.Prelude.{
  Option, none, some, ℕ, zero, suc, ◌+◌, ◌≡◌, refl, sym, ap, ◌∙◌, true, List, [], ◌∷◌, arith,
  length, All, u64,
}
use moon_gen_dpdk_v.Prelude.Int.{ℤ}
use moon_gen_dpdk_v.Double.{fixed_point}
use moon_gen_dpdk_v.Dpdk.{Mbuf, wire_bytes}
use moon_gen_dpdk_v.Crc.{
  Outcome, done, null_write, overflow, out_of_fuel, RateLimiterCrc, set_invalid_packet_size,
  empty_delay, send_timestamp_packet, mark_first,
}
use moon_gen_dpdk_v.Crc.Frames.{Ends}
use moon_gen_dpdk_v.Crc.Fill.{Exhausted}
use moon_gen_dpdk_v.Crc.Load.{last_kept, IsShort}
use moon_gen_dpdk_v.Crc.Load.{kept}
use moon_gen_dpdk_v.Crc.Pace.{IsReady}
use moon_gen_dpdk_v.Crc.Tests.{packet, endless, limiter, limiter-IsSane, nothing_sent}
use moon_gen_dpdk_v.Launch.{
  start, warm_up, idle_for, idle, DelayEmulator, Transmitter, create, current_sending_time, emulate,
  emulate_all, send_batch, transmit_loop,
}
use moon_gen_dpdk_v.Launch.Clock.{Agree, Emulated, emulate-Emulated}
use moon_gen_dpdk_v.Launch.Sync.{IsSynced}
use moon_gen_dpdk_v.Launch.Run.{Allocates, AllFine}
use moon_gen_dpdk_v.Launch.Start.{IsPrepared, origin, transmit_loop-IsSynced}
use moon_gen_dpdk_v.Launch.Drop.{send_batch_lost}

abbrev repeated : ℕ → ℕ → List Mbuf
repeated zero len = []
repeated (suc n) len = packet 0 len 0 ∷ repeated n len

abbrev buffers : ℕ → ℕ → ℕ → List Mbuf × ℕ
buffers pool n len = (repeated n len, pool)

repeated-length :
    (n len : ℕ) → (length (repeated n len) ≡ n) × All (λ p. p.pkt_len ≡ len) (repeated n len)
repeated-length zero len = (refl, tt)
repeated-length (suc n) len =
    let (count, lens) = repeated-length n len in (omega arith, (refl, lens))

buffers-Allocates : Allocates buffers
buffers-Allocates pool n len = repeated-length n len

-- The clock stands at 1 ms; the packets are due 400 ns later, 50 ns before, and at 0.
abbrev emulator : DelayEmulator ℤ
emulator = record (create 10_000 24) { first_timestamp = 1_000_000 }

abbrev early : Mbuf
early = packet 1 64 1_000_400

abbrev late : Mbuf
late = packet 2 64 999_950

abbrev very_late : Mbuf
very_late = packet 3 64 0

abbrev transmitter : Transmitter ℤ ℕ
transmitter = record {
  emulator = emulator;
  ratelimiter = limiter;
  pool = 0;
  bad = nothing_sent;
  bursts = [];
}

-- 400 ns are 500 bytes at 0.8 ns each; the late packet has no delay, and the last one is dropped.
emulate_all_test :
    (emulate_all emulator (early ∷ very_late ∷ [])).1
    ≡ some (record early { timestamp = 500 }) ∷ none ∷ []
unfolding create emulate_all
emulate_all_test = refl

emulate-Emulated_example :
    Emulated emulator early (current_sending_time emulator) (emulate emulator early)
unfolding create current_sending_time
emulate-Emulated_example = emulate-Emulated emulator early (omega arith) (omega arith)

emulator-Agree : Agree emulator limiter
unfolding create moon_gen_dpdk_v.Crc.create
emulator-Agree = refl

transmitter-IsSynced : IsSynced 0 transmitter
unfolding create moon_gen_dpdk_v.Crc.create
transmitter-IsSynced = record {
  agree = emulator-Agree;
  offset_lt = omega arith;
  gap_ge = omega arith;
  gap_le = omega arith;
  missing_lt = omega arith;
  size_lt = omega arith;
  synced = refl;
}

early-IsReady : IsReady limiter (emulate_all emulator (early ∷ [])).1
unfolding create emulate_all moon_gen_dpdk_v.Crc.create
early-IsReady = record {
  sane = limiter-IsSane;
  missing_lt = omega arith;
  short = (omega arith, tt);
}

early-AllFine : AllFine endless buffers buffers-Allocates transmitter ((early ∷ []) ∷ [] ∷ [])
unfolding create emulate_all moon_gen_dpdk_v.Crc.create
early-AllFine = (((omega arith, tt), refl), λ t' e. (tt, λ t'' e'. tt))

transmitter-IsPrepared : IsPrepared transmitter
unfolding create moon_gen_dpdk_v.Crc.create
transmitter-IsPrepared = record {
  agree = emulator-Agree;
  gap_ge = omega arith;
  gap_le = omega arith;
  missing_lt = omega arith;
}

-- The emulator and the limiter that a call ends with.
abbrev ends_with : Outcome (Transmitter ℤ ℕ) → Option (DelayEmulator ℤ × RateLimiterCrc)
ends_with (done t) = some (t.emulator, t.ratelimiter)
ends_with null_write = none
ends_with overflow = none
ends_with out_of_fuel = none

-- The start takes 101 bursts of 64 invalid packets behind the time stamp, 1524 bytes each.
started :
    ends_with (start endless buffers transmitter 0 1_000_000)
    ≡ some
        (record emulator { current_byte_offset = 9_851_136; first_timestamp = 1_000_000 }, limiter)
unfolding start warm_up idle_for idle create emulate_all moon_gen_dpdk_v.Crc.create
    set_invalid_packet_size empty_delay send_timestamp_packet mark_first
started = refl

-- By then the clock stands at 8880908.8 ns.
abbrev timely : Mbuf
timely = packet 4 64 8_881_308

abbrev FineAfter : DelayEmulator ℤ × RateLimiterCrc → Type 0
FineAfter x =
    let load = (emulate_all x.0 (timely ∷ [])).1 in
    All (IsShort x.1) (kept load) × (last_kept load ≡ true)

started_fine :
    FineAfter
      (record emulator { current_byte_offset = 9_851_136; first_timestamp = 1_000_000 }, limiter)
unfolding create emulate_all moon_gen_dpdk_v.Crc.create
started_fine = ((omega arith, tt), refl)

timely-AllFine :
    (t1 : Transmitter ℤ ℕ)
    → start endless buffers transmitter 0 1_000_000 ≡ done t1
    → AllFine endless buffers buffers-Allocates t1 ((timely ∷ []) ∷ [] ∷ [])
timely-AllFine t1 e = (
  subst FineAfter (some-injective _ _ (sym started ∙ ap ends_with e)) started_fine,
  λ t2 e2. (tt, λ t3 e3. tt),
)

transmit_loop-IsSynced_example :
    Ends
      (Exhausted endless)
      (IsSynced (origin transmitter))
      (transmit_loop endless buffers transmitter 0 1_000_000 ((timely ∷ []) ∷ [] ∷ []))
transmit_loop-IsSynced_example =
    transmit_loop-IsSynced endless buffers buffers-Allocates transmitter 0 1_000_000
      ((timely ∷ []) ∷ [] ∷ []) transmitter-IsPrepared timely-AllFine

send_batch_lost_example :
    (t' : Transmitter ℤ ℕ) × (send_batch endless buffers transmitter (late ∷ very_late ∷ [])
      ≡ done t')
    × (t'.bursts ≡ [])
    × (t'.emulator.current_byte_offset
        ≡ u64 (0 + wire_bytes limiter.packet_overhead (packet 2 64 0 ∷ [])))
unfolding create emulate_all moon_gen_dpdk_v.Crc.create
send_batch_lost_example =
    send_batch_lost endless buffers transmitter (late ∷ very_late ∷ []) (packet 2 64 0 ∷ [])
      emulator-Agree (omega arith) limiter-IsSane (omega arith) refl (refl, tt) (omega arith)
