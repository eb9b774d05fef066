-- ===== src/Moonem/Ring.antt =====
-- The `rte_ring` that joins a receiver and a transmitter of src/moonem_sw.cpp and src/moonem.cpp, as
-- an interface. DPDK documents a bulk enqueue to take all the objects or none, and a burst dequeue
-- to take at most so many, in order.
use moon_gen_dpdk_v.Prelude.{
  ℕ, ◌≤◌, ◌+◌, ◌≡◌, ◌⊎◌, Bool, true, false, List, ◌++◌, length, take, drop, length-take, leb,
  if◌then◌else◌, take-append-drop, sym, arith,
}
use moon_gen_dpdk_v.Dpdk.{Mbuf}

pub record Ring (R : Type 0) : Type 0 where
  pub contents : R → List Mbuf
  pub enqueue_bulk : R → List Mbuf → Bool × R
  pub dequeue_burst : R → ℕ → List Mbuf × R
  pub enqueue_all :
      (r : R) (pkts : List Mbuf)
      → (((enqueue_bulk r pkts).0 ≡ true) × (contents (enqueue_bulk r pkts).1 ≡ contents r ++ pkts))
        ⊎ (((enqueue_bulk r pkts).0 ≡ false) × (contents (enqueue_bulk r pkts).1 ≡ contents r))
  pub dequeue_some :
      (r : R) (n : ℕ)
      → (contents r ≡ (dequeue_burst r n).0 ++ contents (dequeue_burst r n).1)
        × (length (dequeue_burst r n).0 ≤ n)

-- A ring of eight places meets the interface.
abbrev pub small_enqueue : List Mbuf → List Mbuf → Bool × List Mbuf
small_enqueue r pkts = if leb (length r + length pkts) 8 then (true, r ++ pkts) else (false, r)

pub small_enqueue_all :
    (r pkts : List Mbuf)
    → (((small_enqueue r pkts).0 ≡ true) × ((small_enqueue r pkts).1 ≡ r ++ pkts))
      ⊎ (((small_enqueue r pkts).0 ≡ false) × ((small_enqueue r pkts).1 ≡ r))
small_enqueue_all r pkts = ground arith

pub small_dequeue_some :
    (r : List Mbuf) (n : ℕ) → (r ≡ take n r ++ drop n r) × (length (take n r) ≤ n)
small_dequeue_some r n = (sym (take-append-drop n r), omega (arith, length-take n r))

abbrev pub small_ring : Ring (List Mbuf)
small_ring = record {
  contents = λ r. r;
  enqueue_bulk = small_enqueue;
  dequeue_burst = λ r n. (take n r, drop n r);
  enqueue_all = small_enqueue_all;
  dequeue_some = small_dequeue_some;
}
