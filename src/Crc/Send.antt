-- ===== src/Crc/Send.antt =====
-- `RateLimiterCRC::send_packets` of src/crc-ratecontrol.cpp as a whole.
use mathlib.Core.List.{append-nil, append_assoc}
use moon_gen_dpdk_v.Prelude.{
  ℕ, suc, ◌+◌, ◌*◌, ◌<◌, ◌≡◌, refl, sym, ap, ◌∙◌, inl, inr, Option, none, some, List, [], ◌∷◌, ◌++◌,
  arith, Bool, true, false, leb, leb→lt, ◌||◌, is_nil, length, length-append, All, u32, u64,
}
use moon_gen_dpdk_v.Dpdk.{Mbuf, wire_bytes, wire_bytes-append}
use moon_gen_dpdk_v.Crc.{
  Outcome, done, ◌>>=◌, RateLimiterCrc, transmit_buffer_size, Sending, push, flush, flush_if, fill,
  send_one, send_loop,
}
use moon_gen_dpdk_v.Crc.Frames.{
  min_gap, IsSane, Ends, Ends-bind, Ends-imp, emitted, IsOpen, IsFiller, pushed, push-pushed,
  flush_if-IsOpen, emitted-flush_if, bad_bytes, flush_if-counts,
}
use moon_gen_dpdk_v.Crc.Fill.{Gap, fill-Gap, Exhausted}
use moon_gen_dpdk_v.Crc.Load.{
  IsPaced, IsShort, kept, last_kept, last_kept-deleted, last_kept-kept, missing, missing-IsSane,
  wire_bytes-fillers,
}

-- What the body of the loop does for one packet.
record One {P : Type 0} (l : RateLimiterCrc) (m : ℕ) (p : Mbuf) (last : Bool) (s : Sending P)
    (r : RateLimiterCrc × Sending P) : Type 0 where
  left : ℕ
  fills : List Mbuf
  fillers : All (IsFiller l) fills
  limiter : r.0 ≡ missing l left
  emits : emitted r.1 ≡ emitted s ++ (fills ++ p ∷ [])
  still_open : IsOpen r.1
  bytes : wire_bytes l.packet_overhead fills + left ≡ p.timestamp + m
  short : left < min_gap l
  flushed : last ≡ true → r.1.buffer ≡ []
  counted : u32 (s.num_bad_pkts + length fills) ≡ u32 r.1.num_bad_pkts
  counted_bytes : u32 (s.num_bad_bytes + bad_bytes l.packet_overhead fills) ≡ u32 r.1.num_bad_bytes

Gap-missing :
    {P : Type 0} (l : RateLimiterCrc) (m delay : ℕ) (s : Sending P) (r : ℕ × Sending P)
    → Gap (missing l m) delay s r
    → Gap l delay s r
Gap-missing l m delay s r (g, short) = (
  record {
    fills = g.fills;
    fillers = g.fillers;
    emits = g.emits;
    still_open = g.still_open;
    bytes = g.bytes;
    counted = g.counted;
    counted_bytes = g.counted_bytes;
  },
  short,
)

flush_if-flushed :
    {P : Type 0} (b last : Bool) (s : Sending P)
    → last ≡ true
    → (flush_if (b || last) s).buffer ≡ []
unfolding flush_if flush
flush_if-flushed b last s e = ground arith

or-eq_false : (a b : Bool) → (a || b) ≡ false → a ≡ false
or-eq_false a b h = ground arith

module _ {P : Type 0} (alloc : P → Option (Mbuf × P)) (l : RateLimiterCrc) (sane : IsSane l) where
  One-of-Gap :
      (m : ℕ) (p : Mbuf) (last : Bool) (s : Sending P) (left : ℕ) (s1 : Sending P)
      → Gap l (p.timestamp + m) s (left, s1)
      → One l m p last s (
        missing l left,
        flush_if (leb transmit_buffer_size (length (s1.buffer ++ (p ∷ []))) || last) (pushed p s1),
      )
  One-of-Gap m p last s left s1 (g, short) =
      let full = leb transmit_buffer_size (length (s1.buffer ++ (p ∷ []))) in
      let (n, k) = flush_if-counts (full || last) (pushed p s1) in
      record {
        left = left;
        fills = g.fills;
        fillers = g.fillers;
        limiter = refl;
        emits =
            emitted-flush_if p (full || last) s1
            ∙ ap (λ xs. xs ++ (p ∷ [])) g.emits
            ∙ append_assoc (emitted s) g.fills (p ∷ []);
        still_open =
            flush_if-IsOpen p (full || last) s1 g.still_open
              (λ e. leb→lt transmit_buffer_size _ (or-eq_false full last e));
        bytes = g.bytes;
        short = short;
        flushed = flush_if-flushed full last (pushed p s1);
        counted = rw n g.counted;
        counted_bytes = rw k g.counted_bytes;
      }

  abbrev after_fill : ℕ → Mbuf → Bool → ℕ × Sending P → Outcome (RateLimiterCrc × Sending P)
  after_fill m p last r = push p r.1 >>= λ s2.
      done (missing l r.0, flush_if (leb transmit_buffer_size (length s2.buffer) || last) s2)

  send_pushed :
      (m : ℕ) (p : Mbuf) (last : Bool) (s : Sending P) (r : ℕ × Sending P)
      → Gap l (p.timestamp + m) s r
      → Ends (Exhausted alloc) (One l m p last s) (after_fill m p last r)
  send_pushed m p last s r g =
      rw (push-pushed p r.1 g.0.still_open) (One-of-Gap m p last s r.0 r.1 g)

  send_one-One :
      (m : ℕ) (p : Mbuf) (last : Bool) (s : Sending P)
      → m < min_gap l
      → IsShort l p
      → IsOpen s
      → Ends (Exhausted alloc) (One l m p last s) (send_one alloc (missing l m) p last s)
  unfolding send_one
  send_one-One m p last s h w o =
      let whole : u64 (p.timestamp + m) ≡ p.timestamp + m = omega arith in
      rw whole (
        Ends-bind (Exhausted alloc) (Gap l (p.timestamp + m) s) (One l m p last s)
          (fill alloc (suc (p.timestamp + m)) (missing l m) (p.timestamp + m) s)
          (after_fill m p last)
          (Ends-imp (Exhausted alloc) (Gap (missing l m) (p.timestamp + m) s)
            (Gap l (p.timestamp + m) s)
            (fill alloc (suc (p.timestamp + m)) (missing l m) (p.timestamp + m) s)
            (fill-Gap alloc (missing l m) (missing-IsSane l m sane) (suc (p.timestamp + m))
              (p.timestamp + m) s (omega arith) (omega arith) o)
            (Gap-missing l m (p.timestamp + m) s))
          (λ r g. send_pushed m p last s r g))

  -- What the loop over the load packets does.
  pub record Sent (m : ℕ) (load : List (Option Mbuf)) (s : Sending P)
      (r : RateLimiterCrc × Sending P) : Type 0 where
    pub out : List Mbuf
    pub left : ℕ
    pub limiter : r.0 ≡ missing l left
    pub emits : emitted r.1 ≡ emitted s ++ out
    pub paced : IsPaced l m (kept load) out left
    pub short : left < min_gap l
    pub still_open : IsOpen r.1
    pub flushed : last_kept load ≡ true → r.1.buffer ≡ []
    pub at_end : is_nil load ≡ true → r.1.buffer ≡ s.buffer
    pub counted : u32 (s.num_bad_pkts + length out) ≡ u32 (r.1.num_bad_pkts + length (kept load))
    pub counted_bytes :
        u32 (s.num_bad_bytes + wire_bytes l.packet_overhead out + 20 * length (kept load))
        ≡ u32 (r.1.num_bad_bytes + wire_bytes l.packet_overhead (kept load) + 20 * length out)

  Sent-nil : (m : ℕ) (s : Sending P) → m < min_gap l → IsOpen s → Sent m [] s (missing l m, s)
  Sent-nil m s h o = record {
    out = [];
    left = m;
    limiter = refl;
    emits = sym (append-nil _);
    paced = (refl, refl);
    short = h;
    still_open = o;
    flushed = λ e. cc;
    at_end = λ e. refl;
    counted = refl;
    counted_bytes = refl;
  }

  Sent-deleted :
      (m : ℕ) (load : List (Option Mbuf)) (s : Sending P) (r : RateLimiterCrc × Sending P)
      → Sent m load s r
      → Sent m (none ∷ load) s r
  Sent-deleted m load s r h = record {
    out = h.out;
    left = h.left;
    limiter = h.limiter;
    emits = h.emits;
    paced = h.paced;
    short = h.short;
    still_open = h.still_open;
    flushed = λ e. h.flushed (last_kept-deleted load e);
    at_end = λ e. cc;
    counted = h.counted;
    counted_bytes = h.counted_bytes;
  }

  Sent-kept :
      (m : ℕ) (p : Mbuf) (load : List (Option Mbuf)) (s : Sending P)
      (r1 r : RateLimiterCrc × Sending P) (one : One l m p (is_nil load) s r1)
      → Sent one.left load r1.1 r
      → Sent m (some p ∷ load) s r
  Sent-kept m p load s r1 r one h =
      let out = one.fills ++ p ∷ h.out in
      let lengths = length-append one.fills (p ∷ h.out) in
      let bytes = wire_bytes-append l.packet_overhead one.fills (p ∷ h.out) in
      let bad = wire_bytes-fillers l sane one.fills one.fillers in
      record {
        out = out;
        left = h.left;
        limiter = h.limiter;
        emits =
            h.emits
            ∙ ap (λ xs. xs ++ h.out) one.emits
            ∙ append_assoc (emitted s) (one.fills ++ p ∷ []) h.out
            ∙ ap (λ xs. emitted s ++ xs) (append_assoc one.fills (p ∷ []) h.out);
        paced = (one.fills, h.out, one.left, refl, one.fillers, one.bytes, one.short, h.paced);
        short = h.short;
        still_open = h.still_open;
        flushed = λ e. elim (last_kept-kept p load e) [
          | inl end ↦ h.at_end end ∙ one.flushed end
          | inr later ↦ h.flushed later
        ];
        at_end = λ e. cc;
        counted = omega (arith, one.counted, h.counted, lengths);
        counted_bytes = omega (arith, one.counted_bytes, h.counted_bytes, lengths, bytes, bad);
      }

  pub send_loop-Sent :
      (m : ℕ) (load : List (Option Mbuf)) (s : Sending P)
      → m < min_gap l
      → All (IsShort l) (kept load)
      → IsOpen s
      → Ends (Exhausted alloc) (Sent m load s) (send_loop alloc (missing l m) load s)
  unfolding send_loop
  send_loop-Sent m [] s h w o = Sent-nil m s h o
  send_loop-Sent m (none ∷ load) s h w o =
      Ends-imp (Exhausted alloc) (Sent m load s) (Sent m (none ∷ load) s) _
        (send_loop-Sent m load s h w o) (Sent-deleted m load s)
  send_loop-Sent m (some p ∷ load) s h (w, ws) o =
      Ends-bind (Exhausted alloc) (One l m p (is_nil load) s) (Sent m (some p ∷ load) s)
        (send_one alloc (missing l m) p (is_nil load) s) (λ r. send_loop alloc r.0 load r.1)
        (send_one-One m p (is_nil load) s h w o)
        (λ r1 one. rw (one.limiter) (
          Ends-imp (Exhausted alloc) (Sent one.left load r1.1) (Sent m (some p ∷ load) s)
            (send_loop alloc (missing l one.left) load r1.1)
            (send_loop-Sent one.left load r1.1 one.short ws one.still_open)
            (λ r h'. Sent-kept m p load s r1 r one h')))
