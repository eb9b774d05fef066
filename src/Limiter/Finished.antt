-- ===== src/Limiter/Finished.antt =====
-- The packets of the batches that a loop of src/software-rate-limiter.cpp has finished or given up.
use mathlib.Core.List.{append-nil, append_assoc}
use moon_gen_dpdk_v.Prelude.{
  ℕ, ◌+◌, ◌≤◌, ◌<◌, ◌≡◌, ◌≢◌, ◌^◌, refl, sym, ap, ◌∙◌, inl, inr, Bool, List, [], ◌∷◌, ◌++◌, arith,
  Bool-cases, length, length-append, u64,
}
use moon_gen_dpdk_v.Dpdk.{Mbuf}
use moon_gen_dpdk_v.Limiter.{
  Ending, going, returned, cut, stale, crashed, Sent, Pacing, Limiter, Poll, loop, continue,
  batch_size,
}
use moon_gen_dpdk_v.Limiter.Account.{pkts_of, pkts_of-append, Rounds}

-- What a whole run did: `done` went out in batches that are counted, `last` from a batch that was
-- given up, whose other packets are dropped; the rest is still in the ring.
pub record Accounted {R G : Type 0} (contents : R → List Mbuf) (l : Limiter R G)
    (r : Ending × Limiter R G) : Type 0 where
  pub finished : List Sent
  pub last : List Sent
  pub dropped : List Mbuf
  pub log : r.1.world.sent ≡ l.world.sent ++ (finished ++ last)
  pub in_order : contents l.ring ≡ pkts_of (finished ++ last) ++ (dropped ++ contents r.1.ring)
  pub one_batch : length last + length dropped ≤ batch_size
  pub counts : r.1.count ≡ u64 (l.count + length finished)
  pub over : r.0 ≢ going

module _ {R G : Type 0} (contents : R → List Mbuf) where
  pub idle-Accounted :
      (e : Ending) (l : Limiter R G) → l.count < 2 ^ 64 → e ≢ going → Accounted contents l (e, l)
  idle-Accounted e l small over = record {
    finished = [];
    last = [];
    dropped = [];
    log = sym (append-nil l.world.sent);
    in_order = refl;
    one_batch = omega arith;
    counts = omega arith;
    over = over;
  }

  Accounted-last :
      (l : Limiter R G) (r : Ending × Limiter R G) (h : Rounds contents l r)
      → l.count < 2 ^ 64
      → r.0 ≢ going
      → r.1.count ≡ l.count
      → Accounted contents l r
  Accounted-last l r h small over same = record {
    finished = [];
    last = h.new;
    dropped = h.dropped;
    log = h.log;
    in_order = h.in_order;
    one_batch = h.one_batch;
    counts = omega arith;
    over = over;
  }

  Accounted-later :
      (l l' : Limiter R G) (e : Ending) (r : Ending × Limiter R G) (h : Rounds contents l (e, l'))
      → h.dropped ≡ []
      → l'.count ≡ u64 (l.count + length h.new)
      → Accounted contents l' r
      → Accounted contents l r
  Accounted-later l l' e r h none_dropped count k = record {
    finished = h.new ++ k.finished;
    last = k.last;
    dropped = k.dropped;
    log =
        k.log
        ∙ ap (λ xs. xs ++ (k.finished ++ k.last)) h.log
        ∙ append_assoc l.world.sent h.new (k.finished ++ k.last)
        ∙ ap (λ xs. l.world.sent ++ xs) (sym (append_assoc h.new k.finished k.last));
    in_order =
        h.in_order
        ∙ ap (λ xs. pkts_of h.new ++ (xs ++ contents l'.ring)) none_dropped
        ∙ ap (λ xs. pkts_of h.new ++ xs) k.in_order
        ∙ sym (
            append_assoc (pkts_of h.new) (pkts_of (k.finished ++ k.last))
              (k.dropped ++ contents r.1.ring))
        ∙ ap (λ xs. xs ++ (k.dropped ++ contents r.1.ring))
            (sym (pkts_of-append h.new (k.finished ++ k.last))
              ∙ ap pkts_of (sym (append_assoc h.new k.finished k.last)));
    one_batch = k.one_batch;
    counts = omega (arith, k.counts, length-append h.new k.finished);
    over = k.over;
  }

  pub Accounted-prepared :
      (l : Limiter R G) (s : Pacing G) (clock : List ℕ) (r : Ending × Limiter R G)
      → Accounted contents (record l { pacing = s; world = record l.world { clock = clock } }) r
      → Accounted contents l r
  Accounted-prepared l s clock r h = record {
    finished = h.finished;
    last = h.last;
    dropped = h.dropped;
    log = h.log;
    in_order = h.in_order;
    one_batch = h.one_batch;
    counts = h.counts;
    over = h.over;
  }

  halted :
      (e : Ending) (l l' : Limiter R G) (h : Rounds contents l (e, l'))
      → e ≢ going
      → l'.count ≡ l.count
  halted e l l' h over = elim h.ended [
    | inl (goes, _, _) ↦ absurd (over goes)
    | inr (_, same) ↦ same
  ]

  module _ (round : Bool → Limiter R G → Ending × Limiter R G)
      (ok : (b : Bool) (l : Limiter R G) → l.count < 2 ^ 64 → Rounds contents l (round b l)) where
    step-Accounted :
        (l : Limiter R G) (x : Ending × Limiter R G) (k : Limiter R G → Ending × Limiter R G)
        → l.count < 2 ^ 64
        → Rounds contents l x
        → ((l' : Limiter R G) → l'.count < 2 ^ 64 → Accounted contents l' (k l'))
        → Accounted contents l (continue round x k)
    step-Accounted l (going, l') k small h later = elim h.ended [
      | inl (_, none_dropped, count) ↦
          Accounted-later l l' going (k l') h none_dropped count (later l' (omega arith))
      | inr (over, _) ↦ absurd (over refl)
    ]
    step-Accounted l (returned, l') k small h later =
        Accounted-last l (returned, l') h small (λ e. cc) (halted returned l l' h (λ e. cc))
    step-Accounted l (cut, l') k small h later =
        Accounted-last l (cut, l') h small (λ e. cc) (halted cut l l' h (λ e. cc))
    step-Accounted l (stale, l') k small h later =
        Accounted-last l (stale, l') h small (λ e. cc) (halted stale l l' h (λ e. cc))
    step-Accounted l (crashed, l') k small h later =
        Accounted-last l (crashed, l') h small (λ e. cc) (halted crashed l l' h (λ e. cc))

    pub loop-Accounted :
        (polls : List Poll) (l : Limiter R G)
        → l.count < 2 ^ 64
        → Accounted contents l (loop round polls l)
    unfolding loop
    loop-Accounted [] l small = idle-Accounted cut l small (λ e. cc)
    loop-Accounted (p ∷ polls) l small = elim (Bool-cases p.is_running) [
      | inl runs ↦ simp runs (
          step-Accounted l (round p.ctl_running l) (loop round polls) small
            (ok p.ctl_running l small) (λ l' small'. loop-Accounted polls l' small'))
      | inr stops ↦ simp stops (idle-Accounted returned l small (λ e. cc))
    ]
