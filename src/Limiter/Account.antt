-- ===== src/Limiter/Account.antt =====
-- Where the packets go in src/software-rate-limiter.cpp, whatever the loop.
use mathlib.Core.List.{append-nil, append_assoc}
use moon_gen_dpdk_v.Prelude.{
  ℕ, suc, ◌+◌, ◌≤◌, ◌<◌, ◌≡◌, ◌≢◌, ◌^◌, refl, sym, ap, ◌∙◌, ◌⊎◌, inl, inr, Bool, true, false,
  Option-cases, List, [], ◌∷◌, ◌++◌, arith, Bool-cases, length, length-append, ltb, u64,
}
use moon_gen_dpdk_v.Dpdk.{Mbuf}
use moon_gen_dpdk_v.Moonem.Delay.{wait_until}
use moon_gen_dpdk_v.Limiter.{
  Ending, going, returned, cut, Sent, World, Pacing, Limiter, transmit, send_all, send_or_stop,
  beyond, counted, batch_size,
}

abbrev pub pkts_of : List Sent → List Mbuf
pkts_of [] = []
pkts_of (s ∷ ss) = s.pkt ∷ pkts_of ss

pub pkts_of-append : (xs ys : List Sent) → pkts_of (xs ++ ys) ≡ pkts_of xs ++ pkts_of ys
pkts_of-append [] ys = refl
pkts_of-append (x ∷ xs) ys = ap (λ zs. x.pkt ∷ zs) (pkts_of-append xs ys)

pub length-pkts_of : (xs : List Sent) → length (pkts_of xs) ≡ length xs
length-pkts_of [] = refl
length-pkts_of (x ∷ xs) = ap suc (length-pkts_of xs)

-- What the inner loop did with a batch: it sent a front part in order, all of it if it went on.
pub record Sends {G : Type 0} (pkts : List Mbuf) (w : World) (r : Ending × Pacing G × World)
    : Type 0 where
  pub new : List Sent
  pub left : List Mbuf
  pub log : r.2.sent ≡ w.sent ++ new
  pub in_order : pkts ≡ pkts_of new ++ left
  pub ended : ((r.0 ≡ going) × (left ≡ [])) ⊎ ((r.0 ≡ returned) ⊎ (r.0 ≡ cut))

unsent :
    {G : Type 0} (pkts : List Mbuf) (w w' : World) (s' : Pacing G) (e : Ending)
    → w'.sent ≡ w.sent
    → (e ≡ returned) ⊎ (e ≡ cut)
    → Sends pkts w (e, s', w')
unsent pkts w w' s' e same h = record {
  new = [];
  left = pkts;
  log = same ∙ sym (append-nil w.sent);
  in_order = refl;
  ended = inr h;
}

Sends-cons :
    {G : Type 0} (now : ℕ) (p : Mbuf) (pkts : List Mbuf) (w w' : World)
    (r : Ending × Pacing G × World)
    → w'.sent ≡ w.sent ++ (record { at = now; pkt = p } ∷ [])
    → Sends pkts w' r
    → Sends (p ∷ pkts) w r
Sends-cons now p pkts w w' r e h =
    let one : Sent = record { at = now; pkt = p } in
    record {
      new = one ∷ h.new;
      left = h.left;
      log = h.log ∙ ap (λ xs. xs ++ h.new) e ∙ append_assoc w.sent (one ∷ []) h.new;
      in_order = ap (λ xs. p ∷ xs) h.in_order;
      ended = h.ended;
    }

module _ {G : Type 0} (due : Pacing G → Mbuf → ℕ) (advance : Pacing G → Mbuf → Pacing G) where
  pub send_all-Sends :
      (s : Pacing G) (pkts : List Mbuf) (w : World) → Sends pkts w (send_all due advance s pkts w)
  unfolding send_all
  send_all-Sends s [] w = record {
    new = [];
    left = [];
    log = sym (append-nil w.sent);
    in_order = refl;
    ended = inl (refl, refl);
  }
  send_all-Sends s (p ∷ pkts) w = elim (Option-cases (wait_until (due s p) w.clock)) [
    | inl e ↦ rw (e, send_all) (unsent (p ∷ pkts) w _ _ cut refl (inr refl))
    | inr ((now, clock), e) ↦ elim (Option-cases (transmit w.attempts)) [
      | inl e' ↦ rw (e, e', send_all) (unsent (p ∷ pkts) w _ _ cut refl (inr refl))
      | inr ((true, attempts), e') ↦
          rw (e, e', send_all)
            (Sends-cons now p pkts w _ _ refl (
              send_all-Sends (advance s p) pkts (record {
                clock = clock;
                attempts = attempts;
                sent = w.sent ++ (record { at = now; pkt = p } ∷ []);
              })))
      | inr ((false, attempts), e') ↦
          rw (e, e', send_all) (unsent (p ∷ pkts) w _ _ returned refl (inl refl))
    ]
  ]

batch-ended :
    {G : Type 0} (pkts : List Mbuf) (wanted count count0 : ℕ) (w : World)
    (r : Ending × Pacing G × World) (h : Sends pkts w r)
    → count ≡ count0
    → let e = beyond (length pkts) wanted r.0 in
      ((e ≡ going) × (h.left ≡ []) × (counted e (length pkts) count ≡ u64 (count0 + length h.new)))
      ⊎ ((e ≢ going) × (counted e (length pkts) count ≡ count0))
batch-ended pkts wanted count count0 w r h same = elim h.ended [
  | inl (e, all) ↦ elim (Bool-cases (ltb (length pkts) wanted)) [
    | inl short ↦ rw (e, short) (inr (λ e'. cc, same))
    | inr enough ↦
        rw (e, enough)
          (inl (
            refl,
            all,
            omega (
              arith,
              same,
              ap length h.in_order,
              length-append (pkts_of h.new) h.left,
              length-pkts_of h.new,
              ap length all,
            ),
          ))
  ]
  | inr (inl e) ↦ rw e (inr (λ e'. cc, same))
  | inr (inr e) ↦ rw e (inr (λ e'. cc, same))
]

-- What a round does to the packets of the ring, whose order `contents` tells.
pub record Rounds {R G : Type 0} (contents : R → List Mbuf) (l : Limiter R G)
    (r : Ending × Limiter R G) : Type 0 where
  pub new : List Sent
  pub dropped : List Mbuf
  pub log : r.1.world.sent ≡ l.world.sent ++ new
  pub in_order : contents l.ring ≡ pkts_of new ++ (dropped ++ contents r.1.ring)
  pub one_batch : length new + length dropped ≤ batch_size
  pub ended :
      ((r.0 ≡ going) × (dropped ≡ []) × (r.1.count ≡ u64 (l.count + length new)))
      ⊎ ((r.0 ≢ going) × (r.1.count ≡ l.count))

module _ {R G : Type 0} (due : Pacing G → Mbuf → ℕ) (advance : Pacing G → Mbuf → Pacing G)
    (contents : R → List Mbuf) where
  pub send_or_stop-Rounds :
      (wanted : ℕ) (pkts : List Mbuf) (ctl_running : Bool) (l l0 : Limiter R G)
      → l.world.sent ≡ l0.world.sent
      → l.count ≡ l0.count
      → contents l0.ring ≡ pkts ++ contents l.ring
      → length pkts ≤ batch_size
      → l.count < 2 ^ 64
      → Rounds contents l0 (send_or_stop due advance wanted pkts ctl_running l)
  unfolding send_or_stop
  send_or_stop-Rounds wanted [] true l l0 same same' order few small = record {
    new = [];
    dropped = [];
    log = same ∙ sym (append-nil l0.world.sent);
    in_order = order;
    one_batch = omega arith;
    ended = inl (refl, refl, omega arith);
  }
  send_or_stop-Rounds wanted [] false l l0 same same' order few small = record {
    new = [];
    dropped = [];
    log = same ∙ sym (append-nil l0.world.sent);
    in_order = order;
    one_batch = omega arith;
    ended = inr (λ e. cc, same');
  }
  send_or_stop-Rounds wanted (p ∷ pkts) ctl_running l l0 same same' order few small =
      let h = send_all-Sends due advance l.pacing (p ∷ pkts) l.world in
      record {
        new = h.new;
        dropped = h.left;
        log = h.log ∙ ap (λ xs. xs ++ h.new) same;
        in_order =
            order
            ∙ ap (λ xs. xs ++ contents l.ring) h.in_order
            ∙ append_assoc (pkts_of h.new) h.left (contents l.ring);
        one_batch = omega (
          arith,
          ap length h.in_order,
          length-append (pkts_of h.new) h.left,
          length-pkts_of h.new,
        );
        ended = batch-ended (p ∷ pkts) wanted l.count l0.count l.world _ h same';
      }
