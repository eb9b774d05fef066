-- ===== src/Dpdk.antt =====
-- The fields of DPDK's `struct rte_mbuf` that the code of src/ reads or writes. `id` stands for the
-- buffer's address, so that two buffers can be told apart; `timestamp` is libmoon's timestamp
-- dynfield, and `burst_size` the dynfield that src/moonem_sw.cpp registers.
use moon_gen_dpdk_v.Prelude.{ℕ, Bool, ◌+◌, List, [], ◌∷◌, ◌++◌, ◌≡◌, arith, ◌==◌, if◌then◌else◌}

pub record Mbuf : Type 0 where
  pub id : ℕ
  pub pkt_len : ℕ
  pub data_len : ℕ
  pub timestamp : ℕ
  pub burst_size : ℕ
  pub tx_timestamp : Bool  -- RTE_MBUF_F_TX_IEEE1588_TMST in ol_flags
  pub rx_timestamp : Bool  -- RTE_MBUF_F_RX_IEEE1588_TMST in ol_flags

-- The bytes that frames take on the wire, with `overhead` bytes for each of them.
abbrev pub wire_bytes : ℕ → List Mbuf → ℕ
wire_bytes overhead [] = 0
wire_bytes overhead (p ∷ ps) = p.pkt_len + overhead + wire_bytes overhead ps

pub wire_bytes-append :
    (o : ℕ) (xs ys : List Mbuf) → wire_bytes o (xs ++ ys) ≡ wire_bytes o xs + wire_bytes o ys
wire_bytes-append o [] ys = omega arith
wire_bytes-append o (x ∷ xs) ys = omega (arith, wire_bytes-append o xs ys)

-- How many of the packets are the one with this identity.
abbrev pub one : ℕ → Mbuf → ℕ
one id p = if p.id == id then 1 else 0

abbrev pub copies : ℕ → List Mbuf → ℕ
copies id [] = 0
copies id (p ∷ ps) = one id p + copies id ps

pub copies-append :
    (id : ℕ) (xs ys : List Mbuf) → copies id (xs ++ ys) ≡ copies id xs + copies id ys
copies-append id [] ys = omega arith
copies-append id (x ∷ xs) ys = omega (arith, copies-append id xs ys)
