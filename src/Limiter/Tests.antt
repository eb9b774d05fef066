-- ===== src/Limiter/Tests.antt =====
-- The loops of src/software-rate-limiter.cpp on a ring that serves all or nothing.
use moon_gen_dpdk_v.Prelude.{
  ℕ, suc, ◌≤◌, ◌≡◌, refl, sym, true, false, List, [], ◌∷◌, ◌++◌, arith, length, leb, take, drop,
  if◌then◌else◌, take-append-drop, length-take, leb→le, Bool-cases, inl, inr,
}
use moon_gen_dpdk_v.Prelude.Int.{ℤ, pos}
use moon_gen_dpdk_v.Double.{fixed_point}
use moon_gen_dpdk_v.Dpdk.{Mbuf}
use moon_gen_dpdk_v.Crc.Tests.{packet}
use moon_gen_dpdk_v.Limiter.{returned, taken, refused, Limiter, Poll, loop}
use moon_gen_dpdk_v.Limiter.Loops.{
  restarted, cbr_due, cbr_advance, frame_cycles, cbr_round, main_round, custom, Setting,
  run_limiter,
}
use moon_gen_dpdk_v.Limiter.Runs.{Dequeues, run_limiter-Accounted}
use moon_gen_dpdk_v.Limiter.Finished.{Accounted}
use moon_gen_dpdk_v.Limiter.Schedule.{OnSchedule, main_loop-OnSchedule}
use moon_gen_dpdk_v.Limiter.Cbr.{Constant, main_loop_cbr-NoFaster}
use moon_gen_dpdk_v.Limiter.Batch.{IsBulk, restarted_starves}

abbrev serve : List Mbuf → ℕ → List Mbuf × List Mbuf
serve r n = if leb n (length r) then (take n r, drop n r) else ([], r)

serve_front : (r : List Mbuf) (n : ℕ) → r ≡ (serve r n).0 ++ (serve r n).1
serve_front r n = elim (Bool-cases (leb n (length r))) [
  | inl e ↦ rw e (sym (take-append-drop n r))
  | inr e ↦ rw e refl
]

serve_few : (r : List Mbuf) (n : ℕ) → length (serve r n).0 ≤ n
serve_few r n = elim (Bool-cases (leb n (length r))) [
  | inl e ↦ rw e (omega (arith, length-take n r))
  | inr e ↦ rw e (omega arith)
]

abbrev serve_queue : Dequeues serve
serve_queue = record { contents = λ r. r; front = serve_front; few = serve_few }

serve-IsBulk : IsBulk serve serve_queue
serve-IsBulk r n = elim (Bool-cases (leb n (length r))) [
  | inl e ↦ rw e (omega (arith, length-take n r, leb→le n (length r) e))
  | inr e ↦ rw e refl
]

-- Gaps of 100 and 50 bytes at 1000 Mbit/s: 800 ns and 400 ns.
abbrev waiting : List Mbuf
waiting = packet 1 64 100 ∷ packet 2 64 50 ∷ packet 3 64 0 ∷ []

abbrev limiter : Limiter (List Mbuf) ℕ
limiter = record {
  ring = waiting;
  pacing = record { next_send = 0; random = 0 };
  world = record {
    clock = 5000 ∷ 5500 ∷ 5900 ∷ 6300 ∷ 6400 ∷ 6500 ∷ [];
    attempts = taken ∷ refused true ∷ taken ∷ taken ∷ [];
    sent = [];
  };
  count = 0;
}

-- A counter with 1000 cycles in a second.
abbrev setting : Setting
setting = record { tsc_hz = 1000; target = 1_000_000; link_speed = 1000 }

abbrev on : Poll
on = record { is_running = true; ctl_running = true }

abbrev off : Poll
off = record { is_running = false; ctl_running = false }

abbrev draw : ℤ → ℕ → ℤ × ℕ
draw rate seed = (pos 0, suc seed)

-- Two packets go in the first round, the third in the second.
run_limiter_test :
    let (e, l) = run_limiter ℤ serve draw custom setting (on ∷ on ∷ off ∷ []) limiter in
    (e ≡ returned) × (l.ring ≡ []) × (l.count ≡ 3)
unfolding run_limiter frame_cycles
run_limiter_test = (refl, refl, refl)

run_limiter-Accounted_example :
    Accounted
      (λ r. r)
      limiter
      (run_limiter ℤ serve draw custom setting (on ∷ on ∷ off ∷ []) limiter)
run_limiter-Accounted_example =
    run_limiter-Accounted serve serve_queue ℤ draw setting custom (on ∷ on ∷ off ∷ []) limiter
      (omega arith)

main_loop-OnSchedule_example :
    let r = loop (main_round serve ℤ 1000 1000) (on ∷ on ∷ off ∷ []) limiter in
    OnSchedule (frame_cycles ℤ 1000 1000) [] 0 limiter.world.clock r.1.world.sent
main_loop-OnSchedule_example = main_loop-OnSchedule ℤ 1000 1000 serve (on ∷ on ∷ off ∷ []) limiter

main_loop_cbr-NoFaster_example :
    Constant 300 [] 5000 (loop (cbr_round serve 1000 300) (on ∷ on ∷ off ∷ []) limiter).1.world.sent
main_loop_cbr-NoFaster_example =
    main_loop_cbr-NoFaster 300 (omega arith) serve 1000 (on ∷ on ∷ off ∷ []) limiter 5000
      (5500 ∷ 5900 ∷ 6300 ∷ 6400 ∷ 6500 ∷ [])
      (omega arith, (omega arith, (omega arith, (omega arith, (omega arith, (omega arith, tt))))))
      (omega arith)

restarted_starves_example :
    let l' = (restarted serve cbr_due (cbr_advance 300) 1000 true limiter).1 in
    (l'.ring ≡ waiting) × (l'.world.sent ≡ [])
restarted_starves_example =
    restarted_starves serve serve_queue serve-IsBulk cbr_due (cbr_advance 300) 1000 true limiter
      (omega arith)
