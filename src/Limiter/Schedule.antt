-- ===== src/Limiter/Schedule.antt =====
-- When packets leave `main_loop` of src/software-rate-limiter.cpp.
use mathlib.Core.Path.{subst}
use mathlib.Core.Option.{some-injective}
use mathlib.Core.List.{append-nil, append_assoc}
use moon_gen_dpdk_v.Prelude.{
  ℕ, ◌+◌, ◌≤◌, ◌<◌, ◌≡◌, ◌≢◌, All, arith, ltb, ltb→lt, Bool-cases, some, refl, sym, ap, ◌∙◌, inl,
  inr, Bool, true, false, Option-cases, List, [], ◌∷◌, ◌++◌, length, u64,
}
use moon_gen_dpdk_v.Dpdk.{Mbuf}
use moon_gen_dpdk_v.Double.{Double}
use moon_gen_dpdk_v.Moonem.Delay.{wait_until}
use moon_gen_dpdk_v.Limiter.{
  Ending, going, returned, cut, stale, crashed, Sent, World, Pacing, Limiter, Poll, transmit,
  send_all, send_or_stop, loop, beyond,
}
use moon_gen_dpdk_v.Limiter.Rule.{IsChain, loop-Does}
use moon_gen_dpdk_v.Limiter.Loops.{frame_due, frame_advance, frame_cycles, main_round}

-- From the cycle `t` on, and on these readings of the cycle counter, each packet leaves at the first
-- reading that is left and not below its due cycle, which is its gap, in cycles, behind the cycle at
-- which the packet before it was due. `left` are the readings behind the last packet.
abbrev pub IsPunctual : (Mbuf → ℕ) → ℕ → List ℕ → List Sent → List ℕ → Type 0
IsPunctual gap t clock [] left = left ≡ clock
IsPunctual gap t clock (s ∷ later) left =
    let due = u64 (t + gap s.pkt) in
    (early : List ℕ) × (rest : List ℕ) × (clock ≡ early ++ (s.at ∷ rest))
    × All (λ c. c < due) early
    × (due ≤ s.at)
    × IsPunctual gap due rest later left

-- The cycle at which the last packet was due.
abbrev last_due : (Mbuf → ℕ) → ℕ → List Sent → ℕ
last_due gap t [] = t
last_due gap t (s ∷ later) = last_due gap (u64 (t + gap s.pkt)) later

IsPunctual-append :
    (gap : Mbuf → ℕ) (t : ℕ) (clock mid left : List ℕ) (xs ys : List Sent)
    → IsPunctual gap t clock xs mid
    → IsPunctual gap (last_due gap t xs) mid ys left
    → IsPunctual gap t clock (xs ++ ys) left
IsPunctual-append gap t clock mid left [] ys h k =
    subst (λ (c : List ℕ). IsPunctual gap t c ys left) h k
IsPunctual-append gap t clock mid left (x ∷ xs) ys (early, rest, e, below, le, h) k =
    (early, rest, e, below, le, IsPunctual-append gap (u64 (t + gap x.pkt)) rest mid left xs ys h k)

-- What a loop sends from the cycle `t` and these readings on.
pub record OnSchedule (gap : Mbuf → ℕ) (sent : List Sent) (t : ℕ) (clock : List ℕ)
    (sent' : List Sent) : Type 0 where
  pub new : List Sent
  pub log : sent' ≡ sent ++ new
  pub left : List ℕ
  pub punctual : IsPunctual gap t clock new left

-- The same for a part of the loop, with the cycle and the readings that it leaves behind if the loop
-- goes on.
record Sends (gap : Mbuf → ℕ) (w : World) (t : ℕ) (e : Ending) (w' : World) (t' : ℕ) : Type 0 where
  on_schedule : OnSchedule gap w.sent t w.clock w'.sent
  next : e ≡ going → t' ≡ last_due gap t on_schedule.new
  clock : e ≡ going → w'.clock ≡ on_schedule.left

Sends-none : (gap : Mbuf → ℕ) (e : Ending) (w : World) (t : ℕ) → Sends gap w t e w t
Sends-none gap e w t = record {
  on_schedule = record { new = []; log = sym (append-nil w.sent); left = w.clock; punctual = refl };
  next = λ _. refl;
  clock = λ _. refl;
}

Sends-stopped :
    (gap : Mbuf → ℕ) (e : Ending) (w w' : World) (t t' : ℕ)
    → w'.sent ≡ w.sent
    → e ≢ going
    → Sends gap w t e w' t'
Sends-stopped gap e w w' t t' same stops = record {
  on_schedule = record {
    new = [];
    log = same ∙ sym (append-nil w.sent);
    left = w.clock;
    punctual = refl;
  };
  next = λ goes. absurd (stops goes);
  clock = λ goes. absurd (stops goes);
}

last_due-append :
    (gap : Mbuf → ℕ) (t : ℕ) (xs ys : List Sent)
    → last_due gap t (xs ++ ys) ≡ last_due gap (last_due gap t xs) ys
last_due-append gap t [] ys = refl
last_due-append gap t (x ∷ xs) ys = last_due-append gap (u64 (t + gap x.pkt)) xs ys

Sends-later :
    (gap : Mbuf → ℕ) (w w1 w2 : World) (t t1 t2 : ℕ) (e : Ending)
    → Sends gap w t going w1 t1
    → Sends gap w1 t1 e w2 t2
    → Sends gap w t e w2 t2
Sends-later gap w w1 w2 t t1 t2 e h k =
    let met = h.next refl in
    let a = h.on_schedule in
    let b = k.on_schedule in
    record {
      on_schedule = record {
        new = a.new ++ b.new;
        log = b.log ∙ ap (λ xs. xs ++ b.new) a.log ∙ append_assoc w.sent a.new b.new;
        left = b.left;
        punctual = IsPunctual-append gap t w.clock a.left b.left a.new b.new a.punctual (
            subst (λ (c : List ℕ). IsPunctual gap (last_due gap t a.new) c b.new b.left)
              (h.clock refl)
              (subst (λ (x : ℕ). IsPunctual gap x w1.clock b.new b.left) met b.punctual));
      };
      next = λ goes.
          k.next goes
          ∙ ap (λ x. last_due gap x b.new) met
          ∙ sym (last_due-append gap t a.new b.new);
      clock = k.clock;
    }

-- The wait ends at the first reading that is not below the time.
wait_until_first :
    (time : ℕ) (clock : List ℕ) (now : ℕ) (later : List ℕ)
    → wait_until time clock ≡ some (now, later)
    → (early : List ℕ) × (clock ≡ early ++ (now ∷ later)) × All (λ c. c < time) early × (time ≤ now)
unfolding wait_until
wait_until_first time [] now later e = cc
wait_until_first time (c ∷ clock) now later e = elim (Bool-cases (ltb c time)) [
  | inl below ↦
      let (early, e', all, le) = wait_until_first time clock now later (rw below at e) in
      (c ∷ early, ap (λ cs. c ∷ cs) e', (ltb→lt c time below, all), le)
  | inr not_below ↦
      let same = some-injective _ _ (rw not_below at e) in
      (
        [],
        ap (λ p. p.0 ∷ p.1) same,
        tt,
        subst (λ (n : ℕ). time ≤ n) (ap (λ p. p.0) same) (ground arith),
      )
]

module _ (W : Type 0) ⦃d : Double W⦄ {G : Type 0} (tsc_hz link_speed : ℕ) where
  send_all-Sends :
      (s : Pacing G) (pkts : List Mbuf) (w : World)
      → let r =
          send_all (frame_due W tsc_hz link_speed) (frame_advance W tsc_hz link_speed) s pkts w in
        Sends (frame_cycles W tsc_hz link_speed) w s.next_send r.0 r.2 r.1.next_send
  unfolding send_all
  send_all-Sends s [] w = Sends-none _ going w s.next_send
  send_all-Sends s (p ∷ pkts) w =
      let due = frame_due W tsc_hz link_speed s p in
      elim (Option-cases (wait_until due w.clock)) [
        | inl e ↦ rw (e, send_all) (Sends-stopped _ cut w _ s.next_send _ refl (λ e'. cc))
        | inr ((now, clock), e) ↦ elim (Option-cases (transmit w.attempts)) [
          | inl e' ↦ rw (e, e', send_all) (Sends-stopped _ cut w _ s.next_send _ refl (λ e''. cc))
          | inr ((false, attempts), e') ↦
              rw (e, e', send_all) (Sends-stopped _ returned w _ s.next_send _ refl (λ e''. cc))
          | inr ((true, attempts), e') ↦
              let one : Sent = record { at = now; pkt = p } in
              let h =
                send_all-Sends (frame_advance W tsc_hz link_speed s p) pkts
                  (record { clock = clock; attempts = attempts; sent = w.sent ++ (one ∷ []) }) in
              let k = h.on_schedule in
              let (early, found, below, le) = wait_until_first due w.clock now clock e in
              rw (e, e', send_all)
                (record {
                  on_schedule = record {
                    new = one ∷ k.new;
                    log = k.log ∙ append_assoc w.sent (one ∷ []) k.new;
                    left = k.left;
                    punctual = (early, clock, found, below, le, k.punctual);
                  };
                  next = h.next;
                  clock = h.clock;
                })
        ]
      ]

pub beyond-going : (n wanted : ℕ) (e : Ending) → beyond n wanted e ≡ going → e ≡ going
beyond-going n wanted going h = refl
beyond-going n wanted returned h = h
beyond-going n wanted cut h = h
beyond-going n wanted stale h = h
beyond-going n wanted crashed h = h

module _ (W : Type 0) ⦃d : Double W⦄ {R G : Type 0} (tsc_hz link_speed : ℕ) where
  abbrev Runs : Limiter R G → Ending → Limiter R G → Type 0
  Runs l e l' =
      Sends (frame_cycles W tsc_hz link_speed) l.world l.pacing.next_send e l'.world
        l'.pacing.next_send

  Runs-IsChain : IsChain (λ (l : Limiter R G). Unit {0}) Runs
  Runs-IsChain = record {
    halt = λ e l over. Sends-none _ e l.world l.pacing.next_send;
    follow = λ l l' l'' e h k. Sends-later _ _ _ _ _ _ _ e h k;
    keep = λ l l' i h. tt;
  }

  send_or_stop-Runs :
      (wanted : ℕ) (pkts : List Mbuf) (b : Bool) (l : Limiter R G)
      → let r =
          send_or_stop
            (frame_due W tsc_hz link_speed)
            (frame_advance W tsc_hz link_speed)
            wanted
            pkts
            b
            l in
        Runs l r.0 r.1
  unfolding send_or_stop
  send_or_stop-Runs wanted [] b l = Sends-none _ _ l.world l.pacing.next_send
  send_or_stop-Runs wanted (p ∷ pkts) b l =
      let h = send_all-Sends W tsc_hz link_speed l.pacing (p ∷ pkts) l.world in
      record {
        on_schedule = h.on_schedule;
        next = λ e. h.next (beyond-going (length (p ∷ pkts)) wanted _ e);
        clock = λ e. h.clock (beyond-going (length (p ∷ pkts)) wanted _ e);
      }

  main_round-Runs :
      (ring_dequeue : R → ℕ → List Mbuf × R) (b : Bool) (l : Limiter R G)
      → let r = main_round ring_dequeue W tsc_hz link_speed b l in Runs l r.0 r.1
  unfolding main_round
  main_round-Runs ring_dequeue b l = send_or_stop-Runs _ _ b _

  -- Over any number of rounds of `main_loop`, a packet is due when the gap that its sender asked for,
  -- converted to cycles, has passed behind the cycle at which the packet before it was due, the
  -- first one behind the start; and each packet leaves at the first reading of the cycle counter
  -- behind those of the packets before it that is not below its due cycle. So no packet leaves too
  -- early, and a late packet does not make the later ones due later.
  pub main_loop-OnSchedule :
      (ring_dequeue : R → ℕ → List Mbuf × R) (polls : List Poll) (l : Limiter R G)
      → let r = loop (main_round ring_dequeue W tsc_hz link_speed) polls l in
        OnSchedule
          (frame_cycles W tsc_hz link_speed)
          l.world.sent
          l.pacing.next_send
          l.world.clock
          r.1.world.sent
  main_loop-OnSchedule ring_dequeue polls l =
      let sends =
        loop-Does _ Runs Runs-IsChain (main_round ring_dequeue W tsc_hz link_speed)
          (λ b l' i. main_round-Runs ring_dequeue b l') polls l tt in
      sends.on_schedule
