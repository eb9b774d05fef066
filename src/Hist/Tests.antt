-- ===== src/Hist/Tests.antt =====
-- A histogram of src/histogram.cpp on concrete values.
use mathlib.Core.List.Permᴰ
use mathlib.Core.Quot
use moon_gen_dpdk_v.Prelude.{◌≡◌, refl, Option, some, List, [], ◌∷◌, arith}
use moon_gen_dpdk_v.Prelude.Int.{ℤ, pos, negsuc}
use moon_gen_dpdk_v.Double.{fixed_point}
use moon_gen_dpdk_v.Hist.{Histogram, bump, rows, bucket, update, create, update_all, ◌>>=◌}
use moon_gen_dpdk_v.Hist.Collect.{Collected, InRange, update_all-Collected}
use moon_gen_dpdk_v.Hist.Bag.{written, written_of, written-written_of}
use moon_gen_dpdk_v.Hist.Bucket.{IsBucket, bucket-IsBucket}

bump_test : bump (pos 10) (bump (negsuc 9) (bump (pos 10) [])) ≡ (negsuc 9, 1) ∷ (pos 10, 2) ∷ []
unfolding bump
bump_test = refl

abbrev values : List ℤ
values = pos 14 ∷ negsuc 13 ∷ pos 0 ∷ pos 6 ∷ []

values-InRange : InRange 10 values
values-InRange = (omega arith, (omega arith, (omega arith, (omega arith, tt))))

abbrev collected : Option (Histogram ℤ)
collected = create 10 >>= λ h. update_all values h

update_all-Collected_example : (h : Histogram ℤ) × (collected ≡ some h) × Collected 10 values h
update_all-Collected_example = update_all-Collected 10 values (omega arith) values-InRange

bucket-IsBucket_example : (b : ℤ) × (bucket 10 5 (negsuc 13) ≡ some b) × IsBucket 10 5 (negsuc 13) b
bucket-IsBucket_example = bucket-IsBucket 10 (negsuc 13) (omega arith) (omega arith)

abbrev swapped : List ℤ
swapped = negsuc 13 ∷ pos 14 ∷ pos 0 ∷ pos 6 ∷ []

written_test : written ℤ 10 swapped ≡ some ((negsuc 9, 1) ∷ (pos 0, 1) ∷ (pos 10, 2) ∷ [])
unfolding create update_all update bump bucket rows
written_test = refl

written-written_of_example :
    (written ℤ 10 values ≡ written_of 10 (Quot.mk values))
    × (written ℤ 10 swapped ≡ written_of 10 (Quot.mk values))
written-written_of_example = written-written_of ℤ 10 values swapped (Permᴰ.swap refl refl)
