-- ===== src/Hist/Collect.antt =====
-- A histogram of src/histogram.cpp from its construction on, over any series of updates.
use moon_gen_dpdk_v.Prelude.{
  ℕ, suc, ◌+◌, ◌/◌, ◌^◌, ◌≤◌, ◌<◌, ◌≡◌, refl, ap, ◌∙◌, Bool, false, Option, none, some, List, [],
  ◌∷◌, arith, lt→leb, if◌then◌else◌, length, All, u32, u64,
}
use moon_gen_dpdk_v.Prelude.Int.{ℤ}
use moon_gen_dpdk_v.Double.{Double}
use moon_gen_dpdk_v.Hist.{
  Histogram, bucket, bump, create, update, update_all, measured, rows, ◌>>=◌,
}
use moon_gen_dpdk_v.Hist.Bucket.{magnitude, bucket-IsBucket}
use moon_gen_dpdk_v.Hist.Storage.{same, IsAscending, lookup, lookup-bump, bump-IsAscending}

-- How many of the values fall into the bucket `key`.
abbrev pub is_key : ℤ → Option ℤ → Bool
is_key key none = false
is_key key (some b) = same key b

abbrev pub in_bucket : ℕ → ℤ → ℤ → Bool
in_bucket size key v = is_key key (bucket size (size / 2) v)

abbrev pub occurrences : ℕ → ℤ → List ℤ → ℕ
occurrences size key [] = 0
occurrences size key (v ∷ vs) =
    let later = occurrences size key vs in if in_bucket size key v then suc later else later

-- Values that half a bucket does not bring out of range.
abbrev pub InRange : ℕ → List ℤ → Type 0
InRange size = All (λ v. magnitude v + size / 2 < 2 ^ 63)

module _ {W : Type 0} ⦃d : Double W⦄ (size : ℕ) where
  -- A histogram after the updates `vs` on `h`.
  record Updated (h : Histogram W) (vs : List ℤ) (h' : Histogram W) : Type 0 where
    ascending : IsAscending h'.storage
    counts :
        (key : ℤ) → lookup key h'.storage ≡ u32 (lookup key h.storage + occurrences size key vs)
    count : h'.count ≡ u64 (h.count + length vs)

  record IsCollecting (h : Histogram W) : Type 0 where
    sized : h.bucket_size ≡ size
    halved : h.bucket_half ≡ size / 2
    ascending : IsAscending h.storage
    small : (key : ℤ) → lookup key h.storage < 2 ^ 32
    count_lt : h.count < 2 ^ 64

  abbrev after : ℤ → ℤ → Histogram W → Histogram W
  after v b h = record (measured v h) { storage = bump b h.storage }

  update-some :
      (v b : ℤ) (h : Histogram W)
      → IsCollecting h
      → bucket size (size / 2) v ≡ some b
      → (vs : List ℤ) → update_all (v ∷ vs) h ≡ update_all vs (after v b h)
  unfolding update_all update
  update-some v b h c e vs = rw (c.sized, c.halved, e) refl

  counted :
      (key v b : ℤ) (h : Histogram W) (n : ℕ)
      → IsAscending h.storage
      → lookup key h.storage < 2 ^ 32
      → bucket size (size / 2) v ≡ some b
      → (lookup key (bump b h.storage) < 2 ^ 32)
        × (u32 (lookup key (bump b h.storage) + n)
            ≡ u32 (lookup key h.storage + (if in_bucket size key v then suc n else n)))
  counted key v b h n a small e =
      rw (ap (is_key key) e, lookup-bump key b h.storage a) (ground arith)

  after-IsCollecting :
      (v b : ℤ) (h : Histogram W)
      → IsCollecting h
      → bucket size (size / 2) v ≡ some b
      → IsCollecting (after v b h)
  unfolding measured
  after-IsCollecting v b h c e = record {
    sized = c.sized;
    halved = c.halved;
    ascending = bump-IsAscending b h.storage c.ascending;
    small = λ key. (counted key v b h 0 c.ascending (c.small key) e).0;
    count_lt = omega arith;
  }

  update_all-Updated :
      1 ≤ size
      → (vs : List ℤ) (h : Histogram W) → InRange size vs
      → IsCollecting h
      → (h' : Histogram W) × (update_all vs h ≡ some h') × Updated h vs h'
  unfolding update_all measured
  update_all-Updated pos [] h r c = (
    h,
    refl,
    record {
      ascending = c.ascending;
      counts = λ key. omega (arith, c.small key);
      count = omega (arith, c.count_lt);
    },
  )
  update_all-Updated pos (v ∷ vs) h (r, rs) c =
      let (b, e, _) = bucket-IsBucket size v pos r in
      let (h', e', u) = update_all-Updated pos vs (after v b h) rs (after-IsCollecting v b h c e) in
      (
        h',
        update-some v b h c e vs ∙ e',
        record {
          ascending = u.ascending;
          counts = λ key.
              u.counts key
              ∙ (counted key v b h (occurrences size key vs) c.ascending (c.small key) e).1;
          count = omega (arith, u.count);
        },
      )

  -- What a new histogram holds after the updates `vs`.
  pub record Collected (vs : List ℤ) (h : Histogram W) : Type 0 where
    pub ascending : IsAscending (rows h)
    pub counts : (key : ℤ) → lookup key (rows h) ≡ u32 (occurrences size key vs)
    pub count : h.count ≡ u64 (length vs)

  -- A histogram with a bucket size of at least 1, updated with values in range, holds under each key
  -- the number of the values that fall into that bucket, in 32 bits, and 0 under any other; the
  -- lines that are written have strictly ascending keys; `count` is the number of the values.
  pub update_all-Collected :
      (vs : List ℤ)
      → 1 ≤ size
      → InRange size vs
      → (h : Histogram W) × ((create size >>= λ h0. update_all vs h0) ≡ some h) × Collected vs h
  unfolding create rows
  update_all-Collected vs pos r =
      let start : Histogram W = record {
        count = 0;
        m2 = d.decimal 0 0;
        mean = d.decimal 0 0;
        variance = d.decimal 0 0;
        bucket_size = size;
        bucket_half = size / 2;
        storage = [];
        warnings = 0;
      } in
      let (h, e, u) = update_all-Updated pos vs start r (record {
        sized = refl;
        halved = refl;
        ascending = tt;
        small = λ key. omega arith;
        count_lt = omega arith;
      }) in
      (
        h,
        rw (lt→leb size 0 pos) e,
        record {
          ascending = u.ascending;
          counts = λ key. omega (arith, u.counts key);
          count = omega (arith, u.count);
        },
      )
