-- ===== src/Limiter/Cbr.antt =====
-- The rate of `main_loop_cbr` of src/software-rate-limiter.cpp.
use mathlib.Core.List.{append-nil, append_assoc}
use moon_gen_dpdk_v.Prelude.{
  ℕ, ◌+◌, ◌/◌, ◌^◌, ◌≤◌, ◌<◌, ◌≡◌, refl, sym, ◌∙◌, inl, inr, Bool, true, false, Option-cases, List,
  [], ◌∷◌, ◌++◌, arith, Bool-cases, length, u64,
}
use moon_gen_dpdk_v.Dpdk.{Mbuf}
use moon_gen_dpdk_v.Moonem.Delay.{wait_until}
use moon_gen_dpdk_v.Moonem.Delay.OnTime.{wait_until-le}
use moon_gen_dpdk_v.Limiter.{
  Ending, Sent, World, Pacing, Limiter, Poll, transmit, send_all, send_or_stop, loop, batch_size,
}
use moon_gen_dpdk_v.Limiter.Loops.{restart, restarted, read_cur, cbr_due, cbr_advance, cbr_round}
use moon_gen_dpdk_v.Limiter.Rule.{IsChain, loop-Does}
use moon_gen_dpdk_v.Limiter.Spacing.{
  AreSmall, IsSpaced-NoFaster, IsSpaced-from, IsTimely, NoFaster, Spaced, Spaced-later, Spaced-none,
  restart-ge, wait_until-AreSmall,
}

module _ {G : Type 0} where
  restart-at :
      (tsc_hz cur : ℕ) (random : G)
      → cur < 2 ^ 62
      → tsc_hz / 100 < cur
      → (restart tsc_hz cur (record { next_send = 0; random = random })
          ≡ record { next_send = cur; random = random })
        × (restart tsc_hz cur (record { next_send = cur; random = random })
            ≡ record { next_send = cur; random = random })
  unfolding restart
  restart-at tsc_hz cur random small late = ground arith

-- The loop of two states whose first round is the same.
loop-first :
    {L : Type 0} (round : Bool → L → Ending × L) (p : Poll) (polls : List Poll) (l l' : L)
    → p.is_running ≡ true
    → round p.ctl_running l ≡ round p.ctl_running l'
    → loop round (p ∷ polls) l ≡ loop round (p ∷ polls) l'
unfolding loop
loop-first round p polls l l' runs e = simp (runs, e) refl

-- What a run sends, and how fast.
pub record Constant (id_cycles : ℕ) (sent : List Sent) (t : ℕ) (sent' : List Sent) : Type 0 where
  pub new : List Sent
  pub log : sent' ≡ sent ++ new
  pub no_faster : NoFaster id_cycles t new

module _ {G : Type 0} (id_cycles : ℕ) (short : id_cycles ≤ 2 ^ 62) where
  send_all-Spaced :
      (s : Pacing G) (pkts : List Mbuf) (w : World)
      → IsTimely w s.next_send
      → let r = send_all cbr_due (cbr_advance id_cycles) s pkts w in
        Spaced id_cycles w s.next_send r.2 r.1.next_send
  unfolding send_all
  send_all-Spaced s [] w h = Spaced-none id_cycles w w s.next_send _ refl (omega arith) h
  send_all-Spaced s (p ∷ pkts) w h = elim (Option-cases (wait_until s.next_send w.clock)) [
    | inl e ↦
        rw (e, send_all) (Spaced-none id_cycles w _ s.next_send _ refl (omega arith) (tt, h.1))
    | inr ((now, clock), e) ↦
        let due = wait_until-le s.next_send w.clock now clock e in
        let (small, smalls) = wait_until-AreSmall s.next_send w.clock now clock h.0 e in
        let next : u64 (s.next_send + id_cycles) ≡ s.next_send + id_cycles = omega arith in
        elim (Option-cases (transmit w.attempts)) [
          | inl e' ↦
              rw (e, e', send_all)
                (Spaced-none id_cycles w _ s.next_send _ refl (omega arith) (smalls, omega arith))
          | inr ((false, attempts), e') ↦
              rw (e, e', send_all)
                (Spaced-none id_cycles w _ s.next_send _ refl (omega arith) (smalls, omega arith))
          | inr ((true, attempts), e') ↦
              let one : Sent = record { at = now; pkt = p } in
              let ih =
                send_all-Spaced (cbr_advance id_cycles s p) pkts
                  (record { clock = clock; attempts = attempts; sent = w.sent ++ (one ∷ []) })
                  (smalls, omega arith) in
              rw (e, e', send_all)
                (record {
                  new = one ∷ ih.new;
                  log = ih.log ∙ append_assoc w.sent (one ∷ []) ih.new;
                  spaced = (
                    s.next_send,
                    omega arith,
                    due.0,
                    IsSpaced-from id_cycles _ _ ih.new _ (omega arith) ih.spaced,
                  );
                  timely = ih.timely;
                })
        ]
  ]

  module _ {R : Type 0} where
    abbrev Holds : Limiter R G → Type 0
    Holds l = IsTimely l.world l.pacing.next_send

    abbrev Does : Limiter R G → Ending → Limiter R G → Type 0
    Does l e l' = Holds l → Spaced id_cycles l.world l.pacing.next_send l'.world l'.pacing.next_send

    Does-IsChain : IsChain Holds Does
    Does-IsChain = record {
      halt = λ e l over h.
          Spaced-none id_cycles l.world l.world l.pacing.next_send _ refl (omega arith) h;
      follow = λ l l' l'' e d d' h.
          Spaced-later id_cycles l.world l'.world l''.world _ _ _ (d h) (d' (d h).timely);
      keep = λ l l' h d. (d h).timely;
    }

    send_or_stop-Does :
        (wanted : ℕ) (pkts : List Mbuf) (b : Bool) (l : Limiter R G)
        → let r = send_or_stop cbr_due (cbr_advance id_cycles) wanted pkts b l in Does l r.0 r.1
    unfolding send_or_stop
    send_or_stop-Does wanted [] b l h =
        Spaced-none id_cycles l.world l.world l.pacing.next_send _ refl (omega arith) h
    send_or_stop-Does wanted (p ∷ pkts) b l h = send_all-Spaced l.pacing (p ∷ pkts) l.world h

    read_cur-Does :
        (tsc_hz : ℕ) (b : Bool) (l : Limiter R G) (pkts : List Mbuf) (clock : List ℕ)
        → Holds l
        → AreSmall clock
        → let r = read_cur cbr_due (cbr_advance id_cycles) tsc_hz b l pkts clock in
          Spaced id_cycles l.world l.pacing.next_send r.1.world r.1.pacing.next_send
    read_cur-Does tsc_hz b l pkts [] h smalls =
        Spaced-none id_cycles l.world l.world l.pacing.next_send _ refl (omega arith) h
    read_cur-Does tsc_hz b l pkts (cur ∷ clock) (_, low) (small, smalls) =
        let (ge, lt) = restart-ge tsc_hz cur l.pacing small low in
        let h =
          send_or_stop-Does (length pkts) pkts b
            (record l {
              pacing = restart tsc_hz cur l.pacing;
              world = record l.world { clock = clock };
            })
            (smalls, lt) in
        record {
          new = h.new;
          log = h.log;
          spaced = IsSpaced-from id_cycles _ _ h.new _ ge h.spaced;
          timely = h.timely;
        }

    cbr_round-Does :
        (ring_dequeue : R → ℕ → List Mbuf × R) (tsc_hz : ℕ) (b : Bool) (l : Limiter R G)
        → let r = cbr_round ring_dequeue tsc_hz id_cycles b l in Does l r.0 r.1
    unfolding cbr_round restarted
    cbr_round-Does ring_dequeue tsc_hz b l h =
        read_cur-Does tsc_hz b (record l { ring = (ring_dequeue l.ring batch_size).1 })
          (ring_dequeue l.ring batch_size).0 l.world.clock h h.0

    cbr_loop-NoFaster :
        (ring_dequeue : R → ℕ → List Mbuf × R) (tsc_hz : ℕ) (polls : List Poll) (l : Limiter R G)
        → AreSmall l.world.clock
        → l.pacing.next_send < 2 ^ 63
        → Constant id_cycles l.world.sent l.pacing.next_send
            (loop (cbr_round ring_dequeue tsc_hz id_cycles) polls l).1.world.sent
    cbr_loop-NoFaster ring_dequeue tsc_hz polls l smalls low =
        let h =
          loop-Does Holds Does Does-IsChain (cbr_round ring_dequeue tsc_hz id_cycles)
            (λ b l' i. cbr_round-Does ring_dequeue tsc_hz b l') polls l (smalls, low)
            (smalls, low) in
        record {
          new = h.new;
          log = h.log;
          no_faster = IsSpaced-NoFaster id_cycles _ _ h.new _ (omega arith) h.spaced;
        }

    abbrev at_next : ℕ → List ℕ → Limiter R G → Limiter R G
    at_next next clock l = record l {
      pacing = record l.pacing { next_send = next };
      world = record l.world { clock = clock };
    }

    -- The first round restarts at its reading, so that it could have started there.
    cbr_round-first :
        (ring_dequeue : R → ℕ → List Mbuf × R) (tsc_hz : ℕ) (b : Bool) (l : Limiter R G) (cur : ℕ)
        (clock : List ℕ)
        → cur < 2 ^ 62
        → tsc_hz / 100 < cur
        → cbr_round ring_dequeue tsc_hz id_cycles b (at_next 0 (cur ∷ clock) l)
          ≡ cbr_round ring_dequeue tsc_hz id_cycles b (at_next cur (cur ∷ clock) l)
    unfolding cbr_round restarted
    cbr_round-first ring_dequeue tsc_hz b l cur clock small late =
        let (e, e') = restart-at tsc_hz cur l.pacing.random small late in rw (e, e') refl

    -- For cycle counts that do not wrap and a counter beyond 10 ms: over any number of rounds of
    -- `main_loop_cbr` from its `next_send = 0` on, restarts after a pause included, the packet at place
    -- k leaves `k * id_cycles` behind the first reading or later.
    pub main_loop_cbr-NoFaster :
        (ring_dequeue : R → ℕ → List Mbuf × R) (tsc_hz : ℕ) (polls : List Poll) (l : Limiter R G)
        (cur : ℕ) (clock : List ℕ)
        → AreSmall (cur ∷ clock)
        → tsc_hz / 100 < cur
        → Constant id_cycles l.world.sent cur
            (loop
              (cbr_round ring_dequeue tsc_hz id_cycles)
              polls
              (at_next 0 (cur ∷ clock) l)).1.world.sent
    main_loop_cbr-NoFaster ring_dequeue tsc_hz [] l cur clock smalls late =
        unfold loop in record { new = []; log = sym (append-nil l.world.sent); no_faster = tt }
    main_loop_cbr-NoFaster ring_dequeue tsc_hz (p ∷ polls) l cur clock smalls late =
        elim (Bool-cases p.is_running) [
          | inl runs ↦
              rw
                (loop-first (cbr_round ring_dequeue tsc_hz id_cycles) p polls
                  (at_next 0 (cur ∷ clock) l) (at_next cur (cur ∷ clock) l) runs
                  (cbr_round-first ring_dequeue tsc_hz p.ctl_running l cur clock smalls.0 late))
                (cbr_loop-NoFaster ring_dequeue tsc_hz (p ∷ polls) (at_next cur (cur ∷ clock) l)
                  smalls (omega (arith, smalls.0)))
          | inr stops ↦
              unfold loop in
              simp stops (record { new = []; log = sym (append-nil l.world.sent); no_faster = tt })
        ]
