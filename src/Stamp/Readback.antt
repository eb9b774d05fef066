-- ===== src/Stamp/Readback.antt =====
-- What a receiver reads back from a packet of src/software-timestamping.c.
use moon_gen_dpdk_v.Prelude.{
  ℕ, zero, suc, ◌+◌, ◌*◌, ◌^◌, ◌≤◌, ◌<◌, ◌≡◌, refl, ap, ◌∙◌, true, false, List, [], ◌∷◌, ◌++◌,
  arith, All, le→leb, length, length-append, length-take, length-drop, take, drop,
}
use moon_gen_dpdk_v.Sniff.Pcap.{store}
use moon_gen_dpdk_v.Stamp.{Round, Stamping, sent, put_u64, moongen_send_packet_with_timestamp}

-- The number that bytes stand for, the lowest byte first.
abbrev pub decode : List ℕ → ℕ
decode [] = 0
decode (b ∷ bs) = b + 256 * decode bs

-- `uint64Ptr(self:getData())[offs]` of lua/software-timestamps.lua.
abbrev pub get_u64 : List ℕ → ℕ → ℕ
get_u64 bytes offs = decode (take 8 (drop (8 * offs) bytes))

-- `after` differs from `before` at most in the word at `offs`, which is `value`.
pub record Holds (offs value : ℕ) (before after : List ℕ) : Type 0 where
  pub word : get_u64 after offs ≡ value
  pub length_kept : length after ≡ length before
  pub front_kept : take (8 * offs) after ≡ take (8 * offs) before
  pub back_kept : drop (8 * offs + 8) after ≡ drop (8 * offs + 8) before

module _ {A : Type 0} where
  take-front : (n : ℕ) (xs ys : List A) → n ≤ length xs → take n (take n xs ++ ys) ≡ take n xs
  take-front zero xs ys h = refl
  take-front (suc n) [] ys h = elim h [ ]
  take-front (suc n) (x ∷ xs) ys h = ap (λ zs. x ∷ zs) (take-front n xs ys (omega arith))

  drop_at : (xs : List A) (m n : ℕ) → m ≡ n → drop m xs ≡ drop n xs
  drop_at xs m n h = ap (λ i. drop i xs) h

  drop-front :
      (n k : ℕ) (xs ys : List A) → n ≤ length xs → drop (n + k) (take n xs ++ ys) ≡ drop k ys
  drop-front zero k xs ys h = drop_at ys (0 + k) k (omega arith)
  drop-front (suc n) k [] ys h = elim h [ ]
  drop-front (suc n) k (x ∷ xs) ys h =
      drop_at (x ∷ (take n xs ++ ys)) (suc n + k) (suc (n + k)) (omega arith)
      ∙ drop-front n k xs ys (omega arith)

decode-store : (value : ℕ) → value < 2 ^ 64 → decode (store 8 value) ≡ value
decode-store value h = omega arith

module _ (offs value : ℕ) (bytes : List ℕ) (room : 8 * offs + 8 ≤ length bytes) where
  put_u64-get_u64 : value < 2 ^ 64 → get_u64 (put_u64 bytes offs value) offs ≡ value
  put_u64-get_u64 small =
      ap (λ ys. decode (take 8 ys))
        (drop_at (put_u64 bytes offs value) (8 * offs) (8 * offs + 0) (omega arith)
          ∙ drop-front (8 * offs) 0 bytes (store 8 value ++ drop (8 * offs + 8) bytes)
              (omega arith))
      ∙ decode-store value small

  put_u64-length : length (put_u64 bytes offs value) ≡ length bytes
  put_u64-length =
      length-append (take (8 * offs) bytes) (store 8 value ++ drop (8 * offs + 8) bytes)
      ∙ omega (arith, length-take (8 * offs) bytes, length-drop (8 * offs + 8) bytes)

  put_u64-front : take (8 * offs) (put_u64 bytes offs value) ≡ take (8 * offs) bytes
  put_u64-front =
      take-front (8 * offs) bytes (store 8 value ++ drop (8 * offs + 8) bytes) (omega arith)

  put_u64-back : drop (8 * offs + 8) (put_u64 bytes offs value) ≡ drop (8 * offs + 8) bytes
  put_u64-back =
      drop-front (8 * offs) 8 bytes (store 8 value ++ drop (8 * offs + 8) bytes) (omega arith)

  put_u64-Holds : value < 2 ^ 64 → Holds offs value bytes (put_u64 bytes offs value)
  put_u64-Holds small = record {
    word = put_u64-get_u64 small;
    length_kept = put_u64-length;
    front_kept = put_u64-front;
    back_kept = put_u64-back;
  }

  Holds-put_u64 :
      (later : ℕ) (ys : List ℕ)
      → Holds offs later (put_u64 bytes offs value) ys
      → Holds offs later bytes ys
  Holds-put_u64 later ys h = record {
    word = h.word;
    length_kept = h.length_kept ∙ put_u64-length;
    front_kept = h.front_kept ∙ put_u64-front;
    back_kept = h.back_kept ∙ put_u64-back;
  }

-- The program runs, and the NIC does not take the packet.
pub record IsRefused (r : Round) : Type 0 where
  pub running : r.is_running ≡ true
  pub refused : r.accepted ≡ false

-- The function ends with the packet sent, and it differs from `bytes` at most in the word at
-- `offs`, which is `tsc`.
pub data SentWith (offs tsc : ℕ) (bytes : List ℕ) : Stamping → Type 0 where
  sent_with : {b : List ℕ} → Holds offs tsc bytes b → SentWith offs tsc bytes (sent b)

SentWith-put_u64 :
    (offs value tsc : ℕ) (bytes : List ℕ) {s : Stamping}
    → 8 * offs + 8 ≤ length bytes
    → SentWith offs tsc (put_u64 bytes offs value) s
    → SentWith offs tsc bytes s
SentWith-put_u64 offs value tsc bytes room (sent_with {b = b} h) =
    sent_with (Holds-put_u64 offs value bytes room tsc b h)

-- When the program runs on and the NIC refuses the packet in the rounds `before`, and takes it in
-- the round after them, at cycle `r.tsc`, a 64-bit number, and the word at `offs` lies within the
-- buffer, then the function sends the packet in that round: what a receiver reads from the word
-- is `r.tsc`, not the cycle of an earlier attempt, and the bytes around the word are as before.
pub moongen_send_packet_with_timestamp-SentWith :
    (offs : ℕ) (before : List Round) (r : Round) (after : List Round) (bytes : List ℕ)
    → All IsRefused before
    → r.is_running ≡ true
    → r.accepted ≡ true
    → r.tsc < 2 ^ 64
    → 8 * offs + 8 ≤ length bytes
    → SentWith offs r.tsc bytes
        (moongen_send_packet_with_timestamp offs (before ++ r ∷ after) bytes)
unfolding moongen_send_packet_with_timestamp
moongen_send_packet_with_timestamp-SentWith offs [] r after bytes refused running accepted small
      room =
    rw (running, accepted, le→leb (8 * offs + 8) (length bytes) room)
      (sent_with (put_u64-Holds offs r.tsc bytes room small))
moongen_send_packet_with_timestamp-SentWith offs (q ∷ before) r after bytes (bad, refused) running
      accepted small room =
    rw (bad.running, bad.refused, le→leb (8 * offs + 8) (length bytes) room)
      (SentWith-put_u64 offs q.tsc r.tsc bytes room (
        moongen_send_packet_with_timestamp-SentWith offs before r after (put_u64 bytes offs q.tsc)
          refused running accepted small (rw (put_u64-length offs q.tsc bytes) room)))
