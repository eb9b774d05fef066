-- ===== src/Limiter/Batch.antt =====
-- How many packets a round of src/software-rate-limiter.cpp takes from the ring, if `ring_dequeue`
-- stores all the packets that it is asked for or none, which is what the halving in `main_loop` is
-- made for.

use moon_gen_dpdk_v.Prelude.{
  ℕ, zero, suc, ◌*◌, ◌/◌, ◌≤◌, ◌<◌, ◌≡◌, refl, sym, ap, ◌∙◌, ◌⊎◌, inl, inr, Bool, true, false, List,
  [], ◌∷◌, ◌++◌, arith, Bool-cases, length, is_nil, ltb, leb, if◌then◌else◌, le→leb, lt→leb, leb→le,
  leb→lt, lt→ltb,
}
use moon_gen_dpdk_v.Dpdk.{Mbuf}
use moon_gen_dpdk_v.Limiter.{Pacing, Limiter, batch_size, send_or_stop}
use moon_gen_dpdk_v.Limiter.Loops.{grab, restarted, read_cur}
use moon_gen_dpdk_v.Limiter.Runs.{Dequeues}

abbrev pub IsBulk :
    {R : Type 0} → (ring_dequeue : R → ℕ → List Mbuf × R) → Dequeues ring_dequeue → Type 0
IsBulk {R} ring_dequeue queue =
    (r : R) (n : ℕ)
    → length (ring_dequeue r n).0 ≡ (if leb n (length (queue.contents r)) then n else 0)

abbrev doubled : ℕ → ℕ
doubled zero = 1
doubled (suc n) = 2 * doubled n

empty-nil : (xs : List Mbuf) → length xs ≡ 0 → xs ≡ []
empty-nil [] h = refl
empty-nil (x ∷ xs) h = absurd (omega arith)

doubled-ge : (n : ℕ) → 1 ≤ doubled n
doubled-ge zero = omega arith
doubled-ge (suc n) = omega (arith, doubled-ge n)

-- What a round takes from a ring of `n` packets: nothing of none, and else as many as it goes on to
-- send, the largest of the sizes that the ring can serve.
abbrev pub Grabs : ℕ → ℕ → ℕ → List Mbuf → Type 0
Grabs size n wanted pkts =
    ((n ≡ 0) × (pkts ≡ []))
    ⊎ ((length pkts ≡ wanted) × (1 ≤ wanted) × (wanted ≤ n) × ((wanted ≡ size) ⊎ (n < 2 * wanted)))

Grabs-half :
    (size n wanted : ℕ) (pkts : List Mbuf)
    → n < 2 * size
    → Grabs size n wanted pkts
    → Grabs (2 * size) n wanted pkts
Grabs-half size n wanted pkts few (inl h) = inl h
Grabs-half size n wanted pkts few (inr (e, ge, le, inl all)) = inr (e, ge, le, inr (omega arith))
Grabs-half size n wanted pkts few (inr (e, ge, le, inr more)) = inr (e, ge, le, inr more)

is_nil-cons : (xs : List Mbuf) → 1 ≤ length xs → is_nil xs ≡ false
is_nil-cons [] h = absurd (omega arith)
is_nil-cons (x ∷ xs) h = refl

read_cur-starved :
    {R G : Type 0} (due : Pacing G → Mbuf → ℕ) (advance : Pacing G → Mbuf → Pacing G) (tsc_hz : ℕ)
    (b : Bool) (l : Limiter R G) (pkts : List Mbuf) (clock : List ℕ)
    → pkts ≡ []
    → let l' = (read_cur due advance tsc_hz b l pkts clock).1 in
      (l'.ring ≡ l.ring) × (l'.world.sent ≡ l.world.sent)
unfolding send_or_stop
read_cur-starved due advance tsc_hz b l pkts [] e = (refl, refl)
read_cur-starved due advance tsc_hz b l pkts (cur ∷ clock) e = rw e (refl, refl)

module _ {R : Type 0} (ring_dequeue : R → ℕ → List Mbuf × R) (queue : Dequeues ring_dequeue)
    (bulk : IsBulk ring_dequeue queue) where
  open queue use {contents, front}

  dequeue-served : (r : R) (n : ℕ) → n ≤ length (contents r) → length (ring_dequeue r n).0 ≡ n
  dequeue-served r n h = bulk r n ∙ rw (le→leb n (length (contents r)) h) refl

  dequeue-refused :
      (r : R) (n : ℕ)
      → length (contents r) < n
      → ((ring_dequeue r n).0 ≡ []) × (contents (ring_dequeue r n).1 ≡ contents r)
  dequeue-refused r n h =
      let nothing =
        empty-nil (ring_dequeue r n).0 (bulk r n ∙ rw (lt→leb n (length (contents r)) h) refl) in
      (nothing, sym (front r n ∙ ap (λ xs. xs ++ contents (ring_dequeue r n).1) nothing))

  grab-Grabs :
      (fuel : ℕ) (r : R)
      → let got = grab ring_dequeue fuel (doubled fuel) r in
        Grabs (doubled fuel) (length (contents r)) got.0 got.1
  unfolding grab
  grab-Grabs zero r = elim (Bool-cases (leb 1 (length (contents r)))) [
    | inl served ↦
        let le = leb→le 1 (length (contents r)) served in
        inr (dequeue-served r 1 le, omega arith, le, inl refl)
    | inr refused ↦
        let lt = leb→lt 1 (length (contents r)) refused in
        inl (omega arith, (dequeue-refused r 1 lt).0)
  ]
  grab-Grabs (suc fuel) r =
      let size = doubled (suc fuel) in
      let more : ltb 1 size ≡ true = lt→ltb 1 size (omega (arith, doubled-ge fuel)) in
      let half : size / 2 ≡ doubled fuel = omega arith in
      elim (Bool-cases (leb size (length (contents r)))) [
        | inl served ↦
            let le = leb→le size (length (contents r)) served in
            let count = dequeue-served r size le in
            rw (is_nil-cons (ring_dequeue r size).0 (omega (arith, count, doubled-ge fuel)))
              (inr (count, omega (arith, doubled-ge fuel), le, inl refl))
        | inr refused ↦
            let lt = leb→lt size (length (contents r)) refused in
            let (nothing, same) = dequeue-refused r size lt in
            let ih = grab-Grabs fuel (ring_dequeue r size).1 in
            rw (ap is_nil nothing, more, half)
              (Grabs-half (doubled fuel) (length (contents r)) _ _ lt (rw same at ih))
      ]

  -- If `ring_dequeue` serves all or nothing: a round of `main_loop` takes from a ring of n packets
  -- the largest of 64, 32, 16, 8, 4, 2 and 1 that is at most n, so that a packet never waits for
  -- others to come, and it sends no more than it took.
  pub main_loop-Grabs :
      (r : R)
      → let got = grab ring_dequeue 6 batch_size r in
        Grabs batch_size (length (contents r)) got.0 got.1
  main_loop-Grabs r = grab-Grabs 6 r

  -- If `ring_dequeue` serves all or nothing: while there are fewer than 64 packets in the ring, a
  -- round of `main_loop_cbr` or `main_loop_poisson`, which ask for 64, takes none of them and sends
  -- nothing, however long they have waited.
  pub restarted_starves :
      {G : Type 0} (due : Pacing G → Mbuf → ℕ) (advance : Pacing G → Mbuf → Pacing G) (tsc_hz : ℕ)
      (b : Bool) (l : Limiter R G)
      → length (contents l.ring) < batch_size
      → let l' = (restarted ring_dequeue due advance tsc_hz b l).1 in
        (contents l'.ring ≡ contents l.ring) × (l'.world.sent ≡ l.world.sent)
  unfolding restarted
  restarted_starves due advance tsc_hz b l few =
      let (nothing, same) = dequeue-refused l.ring batch_size few in
      let (ring, sent) =
        read_cur-starved due advance tsc_hz b
          (record l { ring = (ring_dequeue l.ring batch_size).1 })
          (ring_dequeue l.ring batch_size).0 l.world.clock nothing in
      (ap contents ring ∙ same, sent)
