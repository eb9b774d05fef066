-- ===== src/Sniff/Pcap/Reader.antt =====
-- A reader of the capture file of `pcap_log_pkts` in src/moonsniff.cpp, independent of the writer.

use moon_gen_dpdk_v.Prelude.{
  ℕ, zero, suc, ◌+◌, ◌*◌, ◌/◌, ◌%◌, ◌^◌, ◌<◌, ◌≡◌, refl, sym, ap, ◌∙◌, Option, none, some, List, [],
  ◌∷◌, ◌++◌, arith, All, length, length-append, take, drop, le→ltb, ltb, if◌then◌else◌, map, concat,
}
use moon_gen_dpdk_v.Sniff.Pcap.{Packet, store_rec_hdr, ◌>>=◌}

-- The reader: a 32-bit number, a packet, and packets up to the end of the file.
abbrev pub read_u32 : List ℕ → Option (ℕ × List ℕ)
read_u32 (a ∷ b ∷ c ∷ d ∷ rest) = some (a + 256 * (b + 256 * (c + 256 * d)), rest)
read_u32 _ = none

read_packet : List ℕ → Option (Packet × List ℕ)
read_packet file = read_u32 file >>= λ (sec, r1). read_u32 r1 >>= λ (usec, r2).
    read_u32 r2 >>= λ (incl, r3). read_u32 r3 >>= λ (orig, r4).
    if ltb (length r4) incl
    then none
    else some (
      record {
        hdr = record { ts_sec = sec; ts_usec = usec; incl_len = incl; orig_len = orig };
        content = take incl r4;
      },
      drop incl r4,
    )

pub read_packets : ℕ → List ℕ → Option (List Packet)
read_packets zero file = some []
read_packets (suc n) file =
    read_packet file >>= λ (p, rest). read_packets n rest >>= λ ps. some (p ∷ ps)

-- What a record can hold.
pub record IsWritten (p : Packet) : Type 0 where
  pub sec_lt : p.hdr.ts_sec < 2 ^ 32
  pub usec_lt : p.hdr.ts_usec < 2 ^ 32
  pub incl_lt : p.hdr.incl_len < 2 ^ 32
  pub orig_lt : p.hdr.orig_len < 2 ^ 32
  pub content_length : length p.content ≡ p.hdr.incl_len

abbrev pub encode : Packet → List ℕ
encode p = store_rec_hdr p.hdr ++ p.content

take-append : {A : Type 0} (xs ys : List A) → take (length xs) (xs ++ ys) ≡ xs
take-append [] ys = refl
take-append (x ∷ xs) ys = ap (λ zs. x ∷ zs) (take-append xs ys)

drop-append : {A : Type 0} (xs ys : List A) → drop (length xs) (xs ++ ys) ≡ ys
drop-append [] ys = refl
drop-append (x ∷ xs) ys = drop-append xs ys

pub take_front : (n : ℕ) (xs ys : List ℕ) → length xs ≡ n → take n (xs ++ ys) ≡ xs
take_front n xs ys e = ap (λ k. take k (xs ++ ys)) (sym e) ∙ take-append xs ys

pub drop_front : (n : ℕ) (xs ys : List ℕ) → length xs ≡ n → drop n (xs ++ ys) ≡ ys
drop_front n xs ys e = ap (λ k. drop k (xs ++ ys)) (sym e) ∙ drop-append xs ys

-- The value of the four bytes that a number is stored as.
abbrev pub word : ℕ → ℕ
word n =
    n % 256
    + 256 * (n / 256 % 256 + 256 * (n / 256 / 256 % 256 + 256 * (n / 256 / 256 / 256 % 256)))

word-eq : (n : ℕ) → n < 2 ^ 32 → word n ≡ n
word-eq n h = omega arith

read_packet-encode :
    (p : Packet) (rest : List ℕ) → IsWritten p → read_packet (encode p ++ rest) ≡ some (p, rest)
unfolding read_packet store_rec_hdr
read_packet-encode p rest h =
    rw
      (
        word-eq p.hdr.ts_sec h.sec_lt,
        word-eq p.hdr.ts_usec h.usec_lt,
        word-eq p.hdr.incl_len h.incl_lt,
        word-eq p.hdr.orig_len h.orig_lt,
        le→ltb (length (p.content ++ rest)) p.hdr.incl_len
            (omega (arith, length-append p.content rest, h.content_length)),
        take_front p.hdr.incl_len p.content rest h.content_length,
        drop_front p.hdr.incl_len p.content rest h.content_length,
      )
      refl

-- Whatever packets are encoded one behind the other, the reader finds them again.
pub read_packets-encode :
    (ps : List Packet)
    → All IsWritten ps
    → read_packets (length ps) (concat (map encode ps)) ≡ some ps
unfolding read_packets
read_packets-encode [] h = refl
read_packets-encode (p ∷ ps) (h, hs) =
    rw (read_packet-encode p (concat (map encode ps)) h, read_packets-encode ps hs) refl
