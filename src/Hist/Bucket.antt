-- ===== src/Hist/Bucket.antt =====
-- The buckets of src/histogram.cpp.
use native.Mathlib.Nat.{div-add-mod', mod-lt}
use moon_gen_dpdk_v.Prelude.{
  ℕ, zero, suc, ◌+◌, ◌*◌, ◌/◌, ◌^◌, ◌≤◌, ◌<◌, ◌≡◌, refl, some, arith, lt→ltb, le→leb,
}
use moon_gen_dpdk_v.Prelude.Int.{ℤ, pos, negsuc, pos_part, neg_part}
use moon_gen_dpdk_v.Hist.{bucket, minus}

abbrev pub magnitude : ℤ → ℕ
magnitude v = pos_part v + neg_part v

-- What `update` makes of a value: a multiple of the bucket size, on the value's side of 0, and
-- nowhere farther from the value than half a bucket.
pub record IsBucket (size half : ℕ) (v b : ℤ) : Type 0 where
  pub factor : ℕ
  pub multiple : magnitude b ≡ factor * size
  pub not_above : pos_part b + neg_part v ≤ pos_part v + neg_part b + half
  pub not_below : pos_part v + neg_part b ≤ pos_part b + neg_part v + half

minus-parts : (n : ℕ) → (pos_part (minus n) ≡ 0) × (neg_part (minus n) ≡ n)
minus-parts zero = (refl, refl)
minus-parts (suc n) = (refl, refl)

rounding : (size n : ℕ) → 1 ≤ size → (n / size * size ≤ n) × (n < n / size * size + size)
rounding size n h = omega (arith, div-add-mod' n size, mod-lt n h)

-- Every value whose magnitude leaves room for half a bucket gets a bucket: the nearest multiple of
-- the bucket size.
pub bucket-IsBucket :
    (size : ℕ) (v : ℤ)
    → 1 ≤ size
    → magnitude v + size / 2 < 2 ^ 63
    → (b : ℤ) × (bucket size (size / 2) v ≡ some b) × IsBucket size (size / 2) v b
unfolding bucket
bucket-IsBucket size (pos zero) h small = (
  pos 0,
  refl,
  record { factor = 0; multiple = omega arith; not_above = omega arith; not_below = omega arith },
)
bucket-IsBucket size (pos (suc n)) h small =
    let (le, lt) = rounding size (suc n + size / 2) h in
    (
      pos ((suc n + size / 2) / size * size),
      rw (lt→ltb (suc n + size / 2) (2 ^ 63) (omega arith)) refl,
      record {
        factor = (suc n + size / 2) / size;
        multiple = omega arith;
        not_above = omega arith;
        not_below = omega arith;
      },
    )
bucket-IsBucket size (negsuc n) h small =
    let (le, lt) = rounding size (suc n + size / 2) h in
    let (none_above, all_below) = minus-parts ((suc n + size / 2) / size * size) in
    (
      minus ((suc n + size / 2) / size * size),
      rw (le→leb (suc n + size / 2) (2 ^ 63) (omega arith)) refl,
      record {
        factor = (suc n + size / 2) / size;
        multiple = omega arith;
        not_above = omega arith;
        not_below = omega arith;
      },
    )
