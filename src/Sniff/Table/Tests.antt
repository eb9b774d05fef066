-- ===== src/Sniff/Table/Tests.antt =====
-- The hit list of src/moonsniff.cpp on concrete calls.
use moon_gen_dpdk_v.Prelude.{ℕ, true, ◌≡◌, ◌≢◌, refl, List, [], ◌∷◌, arith}
use moon_gen_dpdk_v.Prelude.Int.{ℤ, pos}
use moon_gen_dpdk_v.Double.{fixed_point}
use moon_gen_dpdk_v.Sniff.Table.{
  Entry, Moonsniff, Op, add, test, index, initial, add_entry, old_ts, test_for, fetch_stats, run,
}
use moon_gen_dpdk_v.Sniff.Table.History.{Tally, finds, fails, old_ts-history, run-Tally}
use moon_gen_dpdk_v.Sniff.Table.Locks.{
  start, add_stamped, add_written, test_compared, test_read, Memory, called, locked, worked,
  unlocked, call, spin, lock, work, unlock, Reach, here, next, advance,
}
use moon_gen_dpdk_v.Sniff.Table.Owners.{IsAtomic}
use moon_gen_dpdk_v.Sniff.Table.Atomic.{Reach-IsAtomic}

abbrev fresh : Moonsniff ℤ
fresh = initial

-- Two packets that take 40 and 60 ns, and a third that was never seen before.
abbrev calls : List Op
calls = add 7 1000 ∷ add 8 1020 ∷ test 7 1040 ∷ test 8 1080 ∷ test 9 1100 ∷ []

fetch_stats_test :
    ((fetch_stats (run fresh calls)).1.average_latency ≡ pos 50)
    × ((fetch_stats (run fresh calls)).1.hits ≡ 2)
    × ((fetch_stats (run fresh calls)).1.misses ≡ 1)
unfolding fetch_stats run initial index
fetch_stats_test = (refl, refl, refl)

abbrev seven : ℕ
seven = 7

old_ts-history_example :
    (seven ≡ 7 → old_ts 7 (run (add_entry 7 1000 fresh) (add 8 1020 ∷ [])) ≡ 1000)
    × (seven ≢ 7 → old_ts 7 (run (add_entry 7 1000 fresh) (add 8 1020 ∷ [])) ≡ 0)
    × (old_ts 7 (run (test_for 7 1000 fresh) (add 8 1020 ∷ [])) ≡ 0)
unfolding index
old_ts-history_example =
    old_ts-history 7 7 1000 (add 8 1020 ∷ []) fresh ((λ e. omega arith), tt) refl

run-Tally_example : Tally (finds fresh calls) (fails fresh calls) fresh (run fresh calls)
run-Tally_example = run-Tally calls fresh

abbrev entry : ℕ → ℕ → Entry
entry timestamp identifier = record { timestamp = timestamp; identifier = identifier }

-- Thread 1 adds packet 7 while thread 2 spins for the same entry to test it.
abbrev both_called : Memory
both_called = called (called (start fresh.hit_list) 1 (add 7 1000)) 2 (test 7 1040)

abbrev added : Memory
added =
    unlocked
      (worked
        (worked (locked both_called 1 (add 7 1000)) 1 (add 7 1000) (add_stamped 7 1000)
          (entry 1000 0))
        1 (add 7 1000) (add_written 7 1000) (entry 1000 7))
      1 (add 7 1000) 0

abbrev tested : Memory
tested =
    worked
      (worked (locked added 2 (test 7 1040)) 2 (test 7 1040) (test_compared 7 1040 true)
        (entry 1000 7))
      2 (test 7 1040) (test_read 7 1040 1000) (entry 1000 7)

interleaved : Reach (start fresh.hit_list) tested
unfolding initial index advance
interleaved =
    next
      (next
        (next
          (next
            (next
              (next
                (next
                  (next (next (next here (call 1 (add 7 1000) refl)) (call 2 (test 7 1040) refl))
                    (lock 1 (add 7 1000) refl refl))
                  (spin 2 (test 7 1040) refl))
                (work 1 (add 7 1000) (add_stamped 7 1000) (entry 1000 0) refl refl))
              (work 1 (add 7 1000) (add_written 7 1000) (entry 1000 7) refl refl))
            (unlock 1 (add 7 1000) 0 refl))
          (lock 2 (test 7 1040) refl refl))
        (work 2 (test 7 1040) (test_compared 7 1040 true) (entry 1000 7) refl refl))
      (work 2 (test 7 1040) (test_read 7 1040 1000) (entry 1000 7) refl refl)

Reach-IsAtomic_example : IsAtomic fresh tested
Reach-IsAtomic_example = Reach-IsAtomic fresh interleaved
