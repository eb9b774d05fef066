-- ===== src/Limiter/Runs.antt =====
-- Where the packets go over a whole run of a loop of src/software-rate-limiter.cpp.
use mathlib.Core.List.{append-nil}
use moon_gen_dpdk_v.Prelude.{
  ℕ, zero, suc, ◌/◌, ◌≤◌, ◌<◌, ◌≡◌, ◌^◌, refl, sym, ap, ◌∙◌, inl, inr, Bool, not, ◌&&◌, List, [],
  ◌∷◌, ◌++◌, arith, Bool-cases, length, is_nil, ltb, leb,
}
use moon_gen_dpdk_v.Dpdk.{Mbuf}
use moon_gen_dpdk_v.Double.{Double}
use moon_gen_dpdk_v.Limiter.{cut, Pacing, Limiter, Poll, loop, batch_size}
use moon_gen_dpdk_v.Limiter.Loops.{
  grab, read_cur, read_first, restarted, cbr_round, main_round, poisson_round, Mode, cbr, poisson,
  custom, Setting, round_of, run_prepared, run_limiter,
}
use moon_gen_dpdk_v.Limiter.Account.{Rounds, send_or_stop-Rounds}
use moon_gen_dpdk_v.Limiter.Finished.{Accounted, idle-Accounted, Accounted-prepared, loop-Accounted}

-- What the loops rely on of `ring_dequeue`: it takes packets from the front of the ring, and no more
-- than it is asked for.
pub record Dequeues {R : Type 0} (ring_dequeue : R → ℕ → List Mbuf × R) : Type 0 where
  pub contents : R → List Mbuf
  pub front : (r : R) (n : ℕ) → contents r ≡ (ring_dequeue r n).0 ++ contents (ring_dequeue r n).1
  pub few : (r : R) (n : ℕ) → length (ring_dequeue r n).0 ≤ n

module _ {R : Type 0} (ring_dequeue : R → ℕ → List Mbuf × R) (queue : Dequeues ring_dequeue) where
  open queue use {contents, front, few}

  pub grab-front :
      (fuel n : ℕ) (r : R)
      → let got = grab ring_dequeue fuel n r in
        (contents r ≡ got.1 ++ contents got.2) × (length got.1 ≤ n)
  unfolding grab
  grab-front zero n r = (front r n, few r n)
  grab-front (suc fuel) n r =
      let got = ring_dequeue r n in
      let (order, small) = grab-front fuel (n / 2) got.1 in
      elim (Bool-cases (is_nil got.0 && ltb 1 n)) [
        | inl again ↦
            let nothing : got.0 ≡ [] = ground arith in
            rw again (front r n ∙ ap (λ xs. xs ++ contents got.1) nothing ∙ order, omega arith)
        | inr enough ↦ rw enough (front r n, few r n)
      ]

  module _ {G : Type 0} where
    read_cur-Rounds :
        (due : Pacing G → Mbuf → ℕ) (advance : Pacing G → Mbuf → Pacing G) (tsc_hz : ℕ) (b : Bool)
        (l : Limiter R G) (clock : List ℕ)
        → l.count < 2 ^ 64
        → let got = ring_dequeue l.ring batch_size in
          Rounds contents l (read_cur due advance tsc_hz b (record l { ring = got.1 }) got.0 clock)
    read_cur-Rounds due advance tsc_hz b l [] small = record {
      new = [];
      dropped = (ring_dequeue l.ring batch_size).0;
      log = sym (append-nil l.world.sent);
      in_order = front l.ring batch_size;
      one_batch = omega (arith, few l.ring batch_size);
      ended = inr (λ e. cc, refl);
    }
    read_cur-Rounds due advance tsc_hz b l (cur ∷ clock) small =
        send_or_stop-Rounds due advance contents _ _ b _ l refl refl (front l.ring batch_size)
          (few l.ring batch_size) small

    restarted-Rounds :
        (due : Pacing G → Mbuf → ℕ) (advance : Pacing G → Mbuf → Pacing G) (tsc_hz : ℕ) (b : Bool)
        (l : Limiter R G)
        → l.count < 2 ^ 64
        → Rounds contents l (restarted ring_dequeue due advance tsc_hz b l)
    unfolding restarted
    restarted-Rounds due advance tsc_hz b l small =
        read_cur-Rounds due advance tsc_hz b l l.world.clock small

    main_round-Rounds :
        (W : Type 0) ⦃d : Double W⦄ (tsc_hz link_speed : ℕ) (b : Bool) (l : Limiter R G)
        → l.count < 2 ^ 64
        → Rounds contents l (main_round ring_dequeue W tsc_hz link_speed b l)
    unfolding main_round
    main_round-Rounds W tsc_hz link_speed b l small =
        let (order, few') = grab-front 6 batch_size l.ring in
        send_or_stop-Rounds _ _ contents _ _ b _ l refl refl order few' small

    poisson_round-Rounds :
        (W : Type 0) ⦃d : Double W⦄ (exponential : W → G → W × G) (tsc_hz target link_speed : ℕ)
        (b : Bool) (l : Limiter R G)
        → l.count < 2 ^ 64
        → Rounds contents l (poisson_round ring_dequeue W exponential tsc_hz target link_speed b l)
    unfolding poisson_round
    poisson_round-Rounds W exponential tsc_hz target link_speed b l small =
        elim (Bool-cases (not (is_nil (ring_dequeue l.ring batch_size).0) && leb link_speed 999)) [
          | inl crash ↦ rw crash (record {
            new = [];
            dropped = [];
            log = sym (append-nil l.world.sent);
            in_order = refl;
            one_batch = omega arith;
            ended = inr (λ e. cc, refl);
          })
          | inr fine ↦ rw fine (restarted-Rounds _ _ tsc_hz b l small)
        ]

    module _ (W : Type 0) ⦃d : Double W⦄ (exponential : W → G → W × G) (k : Setting) where
      round_of-Rounds :
          (mode : Mode) (b : Bool) (l : Limiter R G)
          → l.count < 2 ^ 64
          → Rounds contents l (round_of W ring_dequeue exponential mode k b l)
      unfolding cbr_round
      round_of-Rounds cbr b l small = restarted-Rounds _ _ k.tsc_hz b l small
      round_of-Rounds poisson b l small =
          poisson_round-Rounds W exponential k.tsc_hz k.target k.link_speed b l small
      round_of-Rounds custom b l small = main_round-Rounds W k.tsc_hz k.link_speed b l small

      read_first-Accounted :
          (polls : List Poll) (l : Limiter R G) (clock : List ℕ)
          → l.count < 2 ^ 64
          → Accounted contents l (
              run_prepared W ring_dequeue exponential custom k polls l
                (read_first W ring_dequeue exponential l clock))
      read_first-Accounted polls l [] small = idle-Accounted contents cut l small (λ e. cc)
      read_first-Accounted polls l (cur ∷ clock) small =
          Accounted-prepared contents l (record l.pacing { next_send = cur }) clock _
            (loop-Accounted contents (round_of W ring_dequeue exponential custom k)
              (round_of-Rounds custom) polls _ small)

      from_zero-Accounted :
          (mode : Mode) (polls : List Poll) (l : Limiter R G)
          → l.count < 2 ^ 64
          → Accounted contents l (
              loop
                (round_of W ring_dequeue exponential mode k)
                polls
                (record l { pacing = record l.pacing { next_send = 0 } }))
      from_zero-Accounted mode polls l small =
          Accounted-prepared contents l (record l.pacing { next_send = 0 }) l.world.clock _
            (loop-Accounted contents (round_of W ring_dequeue exponential mode k)
              (round_of-Rounds mode) polls _ small)

      -- In each of the three modes, and whatever the clock, the NIC and the control block say, the
      -- function never loses the order of the ring's packets: those that it sends are the first ones,
      -- each once; of at most one batch, the one that it gives up when it returns or waits at the end
      -- of the readings, the packets behind those sent are dropped; and `count` grows by the number of
      -- the packets of the finished batches.
      pub run_limiter-Accounted :
          (mode : Mode) (polls : List Poll) (l : Limiter R G)
          → l.count < 2 ^ 64
          → Accounted contents l (run_limiter W ring_dequeue exponential mode k polls l)
      unfolding run_limiter
      run_limiter-Accounted cbr polls l small = from_zero-Accounted cbr polls l small
      run_limiter-Accounted poisson polls l small = from_zero-Accounted poisson polls l small
      run_limiter-Accounted custom polls l small = read_first-Accounted polls l l.world.clock small
