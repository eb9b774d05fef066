-- ===== src/Limiter/Loops.antt =====
-- The three loops of src/software-rate-limiter.cpp: `main_loop`, `main_loop_poisson`, `main_loop_cbr`.
use moon_gen_dpdk_v.Prelude.{
  ℕ, zero, suc, ◌+◌, ◌*◌, ◌/◌, Bool, not, ◌&&◌, Option, none, some, List, [], ◌∷◌, ltb, leb,
  if◌then◌else◌, length, u32, u64, sub_u64, is_nil,
}
use moon_gen_dpdk_v.Prelude.Int.{ℤ, pos, ltb_ℤ, signed64}
use moon_gen_dpdk_v.Double.{Double}
use moon_gen_dpdk_v.Dpdk.{Mbuf}
use moon_gen_dpdk_v.Limiter.{
  Ending, cut, crashed, Poll, loop, Pacing, Limiter, batch_size, send_or_stop,
}

module _ {G : Type 0} where
  -- `((int64_t) cur - (int64_t) next_send) > (int64_t) tsc_hz / 100`: nothing sent for 10 ms.
  unfoldable pub restart : ℕ → ℕ → Pacing G → Pacing G
  restart tsc_hz cur s =
      if ltb_ℤ (pos (tsc_hz / 100)) (signed64 (sub_u64 cur s.next_send))
      then record s { next_send = cur }
      else s

module _ {R : Type 0} (ring_dequeue : R → ℕ → List Mbuf × R) where
  -- The first dequeue of a round of `main_loop` and the ones with half the size: the last size, the
  -- packets, and the ring. From 64, the size is 1 behind six of them.
  unfoldable pub grab : ℕ → ℕ → R → ℕ × List Mbuf × R
  grab zero cur_batch_size r =
      let (pkts, r') = ring_dequeue r cur_batch_size in (cur_batch_size, pkts, r')
  grab (suc fuel) cur_batch_size r =
      let (pkts, r') = ring_dequeue r cur_batch_size in
      let smaller = grab fuel (cur_batch_size / 2) r' in
      if is_nil pkts && ltb 1 cur_batch_size then smaller else (cur_batch_size, pkts, r')

-- The end of a round of `main_loop_cbr` or `main_loop_poisson`, from its first reading on.
module _ {R G : Type 0} (due : Pacing G → Mbuf → ℕ) (advance : Pacing G → Mbuf → Pacing G) where
  abbrev pub read_cur : ℕ → Bool → Limiter R G → List Mbuf → List ℕ → Ending × Limiter R G
  read_cur tsc_hz ctl_running l pkts [] = (cut, l)
  read_cur tsc_hz ctl_running l pkts (cur ∷ clock) =
      send_or_stop due advance (length pkts) pkts ctl_running (record l {
        pacing = restart tsc_hz cur l.pacing;
        world = record l.world { clock = clock };
      })

module _ {R G : Type 0} (ring_dequeue : R → ℕ → List Mbuf × R) where
  unfoldable pub restarted :
      (Pacing G → Mbuf → ℕ)
      → (Pacing G → Mbuf → Pacing G)
      → ℕ
      → Bool
      → Limiter R G
      → Ending × Limiter R G
  unfolding send_or_stop restart
  restarted due advance tsc_hz ctl_running l =
      let (pkts, ring') = ring_dequeue l.ring batch_size in
      read_cur due advance tsc_hz ctl_running (record l { ring = ring' }) pkts l.world.clock

-- The packets of `main_loop_cbr` wait for `next_send`, which then moves on by a fixed time.
abbrev pub cbr_due : {G : Type 0} → Pacing G → Mbuf → ℕ
cbr_due s p = s.next_send

abbrev pub cbr_advance : {G : Type 0} → ℕ → Pacing G → Mbuf → Pacing G
cbr_advance id_cycles s p = record s { next_send = u64 (s.next_send + id_cycles) }

module _ (W : Type 0) ⦃d : Double W⦄ where
  -- `target / (1000000000.0 / ((double) tsc_hz))`
  unfoldable pub cbr_cycles : ℕ → ℕ → ℕ
  cbr_cycles tsc_hz target =
      d.to_u64 (d.div (d.of_u64 target) (d.div (d.decimal 1_000_000_000 0) (d.of_u64 tsc_hz)))

  -- `((uint64_t) get_timestamp_dynfield(bufs[i]) * 8 / link_bps) * tsc_hz`
  unfoldable pub frame_cycles : ℕ → ℕ → Mbuf → ℕ
  frame_cycles tsc_hz link_speed p =
      let link_bps = d.mul (d.of_u64 link_speed) (d.decimal 1_000_000 0) in
      d.to_u64 (d.mul (d.div (d.of_u64 (u64 (p.timestamp * 8))) link_bps) (d.of_u64 tsc_hz))

  -- `(bufs[i]->pkt_len + 24) * 8 / (link_speed / 1000)` in 32 bits, and then in cycles.
  unfoldable pub poisson_pkt_time : ℕ → ℕ → Mbuf → ℕ
  poisson_pkt_time tsc_hz link_speed p = d.to_u64 (
      d.mul (d.of_u64 (u32 ((p.pkt_len + 24) * 8) / (link_speed / 1000)))
        (d.div (d.of_u64 tsc_hz) (d.decimal 1_000_000_000 0)))

  -- `(int64_t) (tsc_hz / (1000000000.0 / target) - pkt_time)`
  unfoldable pub poisson_avg : ℕ → ℕ → ℕ → ℤ
  poisson_avg tsc_hz target pkt_time = d.to_i64 (
      d.sub (d.div (d.of_u64 tsc_hz) (d.div (d.decimal 1_000_000_000 0) (d.of_u64 target)))
        (d.of_u64 pkt_time))

  -- `distribution(rand)` of a `std::exponential_distribution` with rate `1.0 / avg` is a parameter.
  module _ {G : Type 0} (exponential : W → G → W × G) where
    unfoldable pub poisson_advance : ℕ → ℕ → ℕ → Pacing G → Mbuf → Pacing G
    unfolding poisson_avg poisson_pkt_time
    poisson_advance tsc_hz target link_speed s p =
        let pkt_time = poisson_pkt_time tsc_hz link_speed p in
        let avg = poisson_avg tsc_hz target pkt_time in
        let (drawn, random') = exponential (d.div (d.decimal 1 0) (d.of_i64 avg)) s.random in
        let next = λ (delay : W).
          d.to_u64 (d.add (d.of_u64 s.next_send) (d.add (d.of_u64 pkt_time) delay)) in
        if ltb_ℤ (pos 0) avg
        then record { next_send = next drawn; random = random' }
        else record s { next_send = next (d.decimal 0 0) }

-- The packets of `main_loop` wait until their own gap has passed.
module _ (W : Type 0) ⦃d : Double W⦄ where
  abbrev pub frame_due : {G : Type 0} → ℕ → ℕ → Pacing G → Mbuf → ℕ
  frame_due tsc_hz link_speed s p = u64 (s.next_send + frame_cycles W tsc_hz link_speed p)

  abbrev pub frame_advance : {G : Type 0} → ℕ → ℕ → Pacing G → Mbuf → Pacing G
  frame_advance tsc_hz link_speed s p = record s { next_send = frame_due tsc_hz link_speed s p }

module _ {R G : Type 0} (ring_dequeue : R → ℕ → List Mbuf × R) where
  -- One round of each loop.
  unfoldable pub cbr_round : ℕ → ℕ → Bool → Limiter R G → Ending × Limiter R G
  unfolding restarted
  cbr_round tsc_hz id_cycles = restarted ring_dequeue cbr_due (cbr_advance id_cycles) tsc_hz

  module _ (W : Type 0) ⦃d : Double W⦄ where
    unfoldable pub main_round : ℕ → ℕ → Bool → Limiter R G → Ending × Limiter R G
    unfolding send_or_stop grab
    main_round tsc_hz link_speed ctl_running l =
        let (wanted, pkts, ring') = grab ring_dequeue 6 batch_size l.ring in
        send_or_stop (frame_due W tsc_hz link_speed) (frame_advance W tsc_hz link_speed) wanted pkts
          ctl_running (record l { ring = ring' })

    unfoldable pub poisson_round :
        (W → G → W × G) → ℕ → ℕ → ℕ → Bool → Limiter R G → Ending × Limiter R G
    unfolding restarted poisson_advance
    poisson_round exponential tsc_hz target link_speed ctl_running l =
        let run =
          restarted ring_dequeue cbr_due (poisson_advance W exponential tsc_hz target link_speed)
            tsc_hz ctl_running l in
        if not (is_nil (ring_dequeue l.ring batch_size).0) && leb link_speed 999
        then (crashed, l)
        else run

-- The three entry points, by the names of their modes in lua/software-ratecontrol.lua.
pub data Mode : Type 0 where
  cbr poisson custom : Mode

-- The arguments of the entry points, and the frequency of the cycle counter.
pub record Setting : Type 0 where
  pub tsc_hz : ℕ
  pub target : ℕ
  pub link_speed : ℕ

module _ (W : Type 0) ⦃d : Double W⦄ {R G : Type 0} (ring_dequeue : R → ℕ → List Mbuf × R)
    (exponential : W → G → W × G) where
  abbrev pub round_of : Mode → Setting → Bool → Limiter R G → Ending × Limiter R G
  round_of cbr k = cbr_round ring_dequeue k.tsc_hz (cbr_cycles W k.tsc_hz k.target)
  round_of poisson k = poisson_round ring_dequeue W exponential k.tsc_hz k.target k.link_speed
  round_of custom k = main_round ring_dequeue W k.tsc_hz k.link_speed

  -- The locals before the loop: `main_loop` reads the counter, the others start at 0.
  abbrev pub read_first : Limiter R G → List ℕ → Option (Limiter R G)
  read_first l [] = none
  read_first l (cur ∷ clock) = some (record l {
    pacing = record l.pacing { next_send = cur };
    world = record l.world { clock = clock };
  })

  abbrev pub prepared : Mode → Limiter R G → Option (Limiter R G)
  prepared custom l = read_first l l.world.clock
  prepared _ l = some (record l { pacing = record l.pacing { next_send = 0 } })

  abbrev pub run_prepared :
      Mode → Setting → List Poll → Limiter R G → Option (Limiter R G) → Ending × Limiter R G
  run_prepared mode k polls l none = (cut, l)
  run_prepared mode k polls l (some l') = loop (round_of mode k) polls l'

  unfoldable pub run_limiter : Mode → Setting → List Poll → Limiter R G → Ending × Limiter R G
  unfolding loop cbr_round main_round poisson_round
  run_limiter mode k polls l = run_prepared mode k polls l (prepared mode l)
