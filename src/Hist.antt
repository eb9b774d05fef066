-- ===== src/Hist.antt =====
-- src/histogram.cpp: the class Histogram. `none` is a call that does not return: a bucket size of 0,
-- which ends the program, and a signed overflow, which C++ leaves undefined.
pub mod Bucket
pub mod Storage
pub mod Collect
pub mod Bag
pub mod Tests
use moon_gen_dpdk_v.Prelude.{
  ℕ, zero, suc, ◌+◌, ◌*◌, ◌/◌, ◌^◌, Bool, true, false, not, Option, none, some, List, [], ◌∷◌, ltb,
  leb, if◌then◌else◌, u32, u64, sub_u64,
}
use moon_gen_dpdk_v.Prelude.Int.{ℤ, pos, negsuc, ltb_ℤ}
use moon_gen_dpdk_v.Double.{Double}

-- The `std::map` is its list of pairs, in the order of an iteration. `warnings` counts the messages
-- on standard error.
pub record Histogram (W : Type 0) : Type 0 where
  pub count : ℕ
  pub m2 : W
  pub mean : W
  pub variance : W
  pub bucket_size : ℕ
  pub bucket_half : ℕ
  pub storage : List (ℤ × ℕ)
  pub warnings : ℕ

infixl 5 ◌>>=◌
abbrev pub ◌>>=◌ {ℓ κ} : {A : Type ℓ} {B : Type κ} → Option A → (A → Option B) → Option B
none >>= f = none
some a >>= f = f a

-- The integer of magnitude `n`, below zero.
abbrev pub minus : ℕ → ℤ
minus zero = pos 0
minus (suc n) = negsuc n

-- `new_val` behind the tests for its sign and the rounding, in `int64_t`.
unfoldable pub bucket : ℕ → ℕ → ℤ → Option ℤ
bucket size half (pos zero) = some (pos 0)
bucket size half (pos (suc n)) =
    if ltb (suc n + half) (2 ^ 63) then some (pos ((suc n + half) / size * size)) else none
bucket size half (negsuc n) =
    if leb (suc n + half) (2 ^ 63) then some (minus ((suc n + half) / size * size)) else none

-- `++storage[key]`: a new key is inserted in its place, with the value 0 before the increment.
unfoldable pub bump : ℤ → List (ℤ × ℕ) → List (ℤ × ℕ)
bump key [] = (key, 1) ∷ []
bump key ((k, n) ∷ rest) =
    let later = bump key rest in
    if ltb_ℤ key k
    then (key, 1) ∷ (k, n) ∷ rest
    else if ltb_ℤ k key
    then (k, n) ∷ later
    else (k, u32 (n + 1)) ∷ rest

module _ {W : Type 0} ⦃d : Double W⦄ where
  -- The constructor.
  unfoldable pub create : ℕ → Option (Histogram W)
  create bucket_size =
      if leb bucket_size 0
      then none
      else some (record {
        count = 0;
        m2 = d.decimal 0 0;
        mean = d.decimal 0 0;
        variance = d.decimal 0 0;
        bucket_size = bucket_size;
        bucket_half = bucket_size / 2;
        storage = [];
        warnings = 0;
      })

  -- The statistics, as `update` has them after `++count`.
  unfoldable pub measured : ℤ → Histogram W → Histogram W
  measured new_val h =
      let count = u64 (h.count + 1) in
      let delta = d.sub (d.of_i64 new_val) h.mean in
      let mean = d.add h.mean (d.div delta (d.of_u64 count)) in
      let delta2 = d.sub (d.of_i64 new_val) mean in
      record h { count = count; mean = mean; m2 = d.add h.m2 (d.mul delta delta2) }

  unfoldable pub update : ℤ → Histogram W → Option (Bool × Histogram W)
  unfolding measured
  update new_val h =
      let ret = not (ltb_ℤ new_val (pos 0)) in
      let h1 = measured new_val h in
      bucket h.bucket_size h.bucket_half new_val >>= λ key.
      some (ret, record h1 { storage = bump key h.storage })

  unfoldable pub finalize : Histogram W → Histogram W
  finalize h =
      if ltb h.count 2
      then record h { warnings = h.warnings + 1 }
      else record h { variance = d.div h.m2 (d.of_u64 (sub_u64 h.count 1)) }

  -- The lines of `write_to_file`.
  unfoldable pub rows : Histogram W → List (ℤ × ℕ)
  rows h = h.storage

  -- A series of updates, their results dropped.
  unfoldable pub update_all : List ℤ → Histogram W → Option (Histogram W)
  update_all [] h = some h
  update_all (v ∷ vs) h = update v h >>= λ (_, h'). update_all vs h'
