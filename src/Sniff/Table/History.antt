-- ===== src/Sniff/Table/History.antt =====
-- Which time stamp a test finds in src/moonsniff.cpp, and what the counters count.
use moon_gen_dpdk_v.Prelude.{
  ℕ, suc, ◌+◌, ◌≡◌, ◌≢◌, refl, sym, ◌∙◌, inl, inr, List, [], ◌∷◌, arith, All, Bool-cases, ◌==◌,
  if◌then◌else◌, u32, u64, sub_u64,
}
use moon_gen_dpdk_v.Prelude.Int.{ℤ, pos, ltb_ℤ, signed64}
use moon_gen_dpdk_v.Double.{Double}
use moon_gen_dpdk_v.Sniff.Table.{
  Moonsniff, Op, add, test, index, add_entry, measure, old_ts, test_for, set_thresh, step, run,
  warn_below, hit, cleared,
}

abbrev pub identifier_of : Op → ℕ
identifier_of (add i t) = i
identifier_of (test i t) = i

-- No call of `ops` has an identifier of the same entry.
abbrev pub Untouched : ℕ → List Op → Type 0
Untouched slot = All (λ o. index (identifier_of o) ≢ slot)

module _ {W : Type 0} ⦃d : Double W⦄ where
  measure-hit_list : (diff : ℤ) (s : Moonsniff W) → (measure diff s).hit_list ≡ s.hit_list
  unfolding measure
  measure-hit_list diff s = refl

  test_for-cleared :
      (i t j : ℕ) (s : Moonsniff W)
      → ((test_for i t s).hit_list j).timestamp
        ≡ (if index i == j then 0 else (s.hit_list j).timestamp)
  unfolding test_for
  test_for-cleared i t j s = ground arith

  step-Untouched :
      (i : ℕ) (o : Op) (s : Moonsniff W)
      → index (identifier_of o) ≢ index i
      → (step s o).hit_list (index i) ≡ s.hit_list (index i)
  unfolding step
  step-Untouched i (add j t) s ne = ground arith
  step-Untouched i (test j t) s ne = ground arith

  run-Untouched :
      (i : ℕ) (ops : List Op) (s : Moonsniff W)
      → Untouched (index i) ops
      → (run s ops).hit_list (index i) ≡ s.hit_list (index i)
  unfolding run
  run-Untouched i [] s h = refl
  run-Untouched i (o ∷ ops) s (h, hs) = run-Untouched i ops (step s o) hs ∙ step-Untouched i o s h

  old_ts-Untouched :
      (i : ℕ) (ops : List Op) (s : Moonsniff W)
      → Untouched (index i) ops
      → old_ts i (run s ops) ≡ old_ts i s
  unfolding old_ts
  old_ts-Untouched i ops s h = rw (run-Untouched i ops s h) refl

  old_ts-add_entry : (i t : ℕ) (s : Moonsniff W) → old_ts i (add_entry i t s) ≡ t
  unfolding old_ts add_entry
  old_ts-add_entry i t s = ground arith

  old_ts-add_other :
      (i j t : ℕ) (s : Moonsniff W) → i ≢ j → index i ≡ index j → old_ts j (add_entry i t s) ≡ 0
  unfolding old_ts add_entry
  old_ts-add_other i j t s ne same = ground arith

  old_ts-test_for :
      (i j t : ℕ) (s : Moonsniff W) → index i ≡ index j → old_ts j (test_for i t s) ≡ 0
  unfolding old_ts test_for
  old_ts-test_for i j t s same = ground arith

  -- A test finds the time stamp of the last call on its entry, if that call added its identifier;
  -- it finds none if that call added another identifier of the same entry, or was a test: each time
  -- stamp is found at most once, and a test with a colliding identifier destroys it.
  pub old_ts-history :
      (i j t : ℕ) (ops : List Op) (s : Moonsniff W)
      → Untouched (index j) ops
      → index i ≡ index j
      → (i ≡ j → old_ts j (run (add_entry i t s) ops) ≡ t)
        × (i ≢ j → old_ts j (run (add_entry i t s) ops) ≡ 0)
        × (old_ts j (run (test_for i t s) ops) ≡ 0)
  old_ts-history i j t ops s free same = (
    λ e. old_ts-Untouched j ops (add_entry i t s) free ∙ rw e (old_ts-add_entry j t s),
    λ ne. old_ts-Untouched j ops (add_entry i t s) free ∙ old_ts-add_other i j t s ne same,
    old_ts-Untouched j ops (test_for i t s) free ∙ old_ts-test_for i j t s same,
  )

  -- How many tests find a time stamp in the list, and how many do not.
  abbrev pub finds : Moonsniff W → List Op → ℕ
  finds s [] = 0
  finds s (add i t ∷ ops) = finds (step s (add i t)) ops
  finds s (test i t ∷ ops) =
      let later = finds (step s (test i t)) ops in if old_ts i s == 0 then later else suc later

  abbrev pub fails : Moonsniff W → List Op → ℕ
  fails s [] = 0
  fails s (add i t ∷ ops) = fails (step s (add i t)) ops
  fails s (test i t ∷ ops) =
      let later = fails (step s (test i t)) ops in if old_ts i s == 0 then suc later else later

  finds_test :
      (s : Moonsniff W) (i t : ℕ) (ops : List Op)
      → finds s (test i t ∷ ops) ≡ finds s (test i t ∷ []) + finds (step s (test i t)) ops
  finds_test s i t ops = ground arith

  fails_test :
      (s : Moonsniff W) (i t : ℕ) (ops : List Op)
      → fails s (test i t ∷ ops) ≡ fails s (test i t ∷ []) + fails (step s (test i t)) ops
  fails_test s i t ops = ground arith

  -- The counters after `found` more tests that found a time stamp and `missed` that found none, up
  -- to their wrap-around.
  pub record Tally (found missed : ℕ) (s s' : Moonsniff W) : Type 0 where
    pub hits : u32 s'.stats.hits ≡ u32 (s.stats.hits + found)
    pub misses : u32 s'.stats.misses ≡ u32 (s.stats.misses + missed)
    pub count : u64 s'.count ≡ u64 (s.count + found)

  added-Tally : (i t : ℕ) (s : Moonsniff W) → Tally 0 0 s (step s (add i t))
  unfolding step
  added-Tally i t s = record { hits = omega arith; misses = omega arith; count = omega arith }

  tested-Tally :
      (i t : ℕ) (s : Moonsniff W)
      → Tally (finds s (test i t ∷ [])) (fails s (test i t ∷ [])) s (step s (test i t))
  unfolding step test_for measure
  tested-Tally i t s = elim (Bool-cases (old_ts i s == 0)) [
    | inl none_found ↦
        rw none_found (record { hits = omega arith; misses = omega arith; count = omega arith })
    | inr found ↦ elim (Bool-cases (ltb_ℤ (signed64 (sub_u64 t (old_ts i s))) s.thresh)) [
      | inl below ↦
          rw (found, below)
            (record { hits = omega arith; misses = omega arith; count = omega arith })
      | inr above ↦
          rw (found, above)
            (record { hits = omega arith; misses = omega arith; count = omega arith })
    ]
  ]

  Tally-trans :
      (m n m' n' k k' : ℕ) (s s1 s2 : Moonsniff W)
      → k ≡ m + n
      → k' ≡ m' + n'
      → Tally m m' s s1
      → Tally n n' s1 s2
      → Tally k k' s s2
  Tally-trans m n m' n' k k' s s1 s2 e e' h h' = record {
    hits = omega (arith, h.hits, h'.hits);
    misses = omega (arith, h.misses, h'.misses);
    count = omega (arith, h.count, h'.count);
  }

  -- A test that finds its packet's time stamp in the list counts as a hit, below the threshold too,
  -- and every other test as a miss; `count` grows with the hits.
  pub run-Tally :
      (ops : List Op) (s : Moonsniff W) → Tally (finds s ops) (fails s ops) s (run s ops)
  unfolding run
  run-Tally [] s = record { hits = omega arith; misses = omega arith; count = omega arith }
  run-Tally (add i t ∷ ops) s =
      Tally-trans 0 _ 0 _ _ _ s (step s (add i t)) _ (omega arith) (omega arith) (added-Tally i t s)
        (run-Tally ops (step s (add i t)))
  run-Tally (test i t ∷ ops) s =
      Tally-trans _ _ _ _ _ _ s (step s (test i t)) _ (finds_test s i t ops) (fails_test s i t ops)
        (tested-Tally i t s) (run-Tally ops (step s (test i t)))

  -- All of the state but the threshold and the messages.
  abbrev pub silent : Moonsniff W → Moonsniff W
  silent s = record s { thresh = pos 0; warnings = 0 }

  measure-silent :
      (diff : ℤ) (s : Moonsniff W)
      → silent (measure diff (warn_below diff s)) ≡ silent (measure diff s)
  unfolding measure
  measure-silent diff s = elim (Bool-cases (ltb_ℤ diff s.thresh)) [
    | inl below ↦ rw below refl
    | inr above ↦ rw above refl
  ]

  -- A measurement below the threshold is reported, and yet it goes into the statistics like any
  -- other: with whatever threshold, a test leaves the same state but for the messages.
  pub test_for-thresh :
      (i t : ℕ) (thresh : ℤ) (s : Moonsniff W)
      → silent (test_for i t (set_thresh thresh s)) ≡ silent (test_for i t s)
  unfolding test_for set_thresh
  test_for-thresh i t thresh s = elim (Bool-cases (old_ts i s == 0)) [
    | inl none_found ↦ rw none_found refl
    | inr found ↦ rw found (
        measure-silent (signed64 (sub_u64 t (old_ts i s))) (hit (cleared i (set_thresh thresh s)))
        ∙ sym (measure-silent (signed64 (sub_u64 t (old_ts i s))) (hit (cleared i s))))
  ]
