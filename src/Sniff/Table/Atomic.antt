-- ===== src/Sniff/Table/Atomic.antt =====
-- However the threads of src/moonsniff.cpp interleave, the calls on the hit list are atomic.
use mathlib.Core.Path.{subst}
use mathlib.Core.Option.{some-injective}
use moon_gen_dpdk_v.Prelude.{
  ℕ, ◌≡◌, ◌≢◌, refl, sym, ap, ◌∙◌, inl, inr, none, some, ◌∷◌, arith, Bool-cases, ◌==◌,
}
use moon_gen_dpdk_v.Double.{Double}
use moon_gen_dpdk_v.Sniff.Table.{Entry, Moonsniff, Op, add, test, update, old_ts}
use moon_gen_dpdk_v.Sniff.Table.Locks.{
  start, Place, outside, worked, unlocked, advance, finished, holding, slot, put, Memory, Step,
  call, spin, lock, work, unlock, Reach, here, next,
}
use moon_gen_dpdk_v.Sniff.Table.Midway.{
  IsMidway, Advanced, advance-Advanced, put-cases, put_same, put_other, unput_none_at, final,
  ReadsOf, finished-Finished,
}
use moon_gen_dpdk_v.Sniff.Table.Owners.{
  free_apart, step-hit_list, replay, Reads, entry_of, Owns, IsAtomic, apart, call-IsAtomic,
  lock-IsAtomic,
}

module _ {W : Type 0} ⦃d : Double W⦄ (s : Moonsniff W) where
  work_own :
      (m : Memory) (n : ℕ) (o : Op) (p : Place) (e : Entry)
      → holding (m.threads n) ≡ some o
      → m.mtx (slot o) ≡ some n
      → Advanced (m.threads n) p (entry_of s m.history (slot o)) e
      → Owns s (worked m n o p e) n p
  work_own m n o p e held own adv c g =
      subst
        (λ c.
          (m.mtx (slot c) ≡ some n)
          × IsMidway p (entry_of s m.history (slot c)) (update m.hit_list (slot o) e (slot c)))
        (some-injective _ _ (sym held ∙ sym adv.same_call ∙ g))
        (
          own,
          subst (IsMidway p (entry_of s m.history (slot o)))
              (sym (put_same m.hit_list (slot o) e (slot o) refl)) adv.midway,
        )

  work_other :
      (m : Memory) (n k : ℕ) (o : Op) (p : Place) (e : Entry)
      → n ≢ k
      → m.mtx (slot o) ≡ some n
      → IsAtomic s m
      → Owns s (worked m n o p e) k (m.threads k)
  work_other m n k o p e other own h c g =
      let (own', midway) = h.owners k c g in
      let clear = apart s m n k (slot o) (slot c) other own own' in
      (
        own',
        subst (IsMidway (m.threads k) (entry_of s m.history (slot c)))
            (sym (put_other m.hit_list (slot o) e (slot c) clear)) midway,
      )

  work-IsAtomic :
      (m : Memory) (n : ℕ) (o : Op) (p : Place) (e : Entry)
      → holding (m.threads n) ≡ some o
      → advance (m.threads n) (m.hit_list (slot o)) ≡ some (p, e)
      → IsAtomic s m
      → IsAtomic s (worked m n o p e)
  work-IsAtomic m n o p e held done h =
      let (own, midway) = h.owners n o held in
      let adv =
        advance-Advanced (m.threads n) p (entry_of s m.history (slot o)) (m.hit_list (slot o)) e
          done midway in
      record {
        sequential = h.sequential;
        free = λ j g.
            put_other m.hit_list (slot o) e j (λ q. free_apart s m n j (slot o) g own (sym q))
            ∙ h.free j g;
        owners = λ k.
            put-cases m.threads n p (Owns s (worked m n o p e) k) k
              (λ same.
                subst (λ i. Owns s (worked m n o p e) i p) same (work_own m n o p e held own adv))
              (λ other. work_other m n k o p e other own h);
      }

  unlock_other :
      (m : Memory) (n k : ℕ) (o : Op) (old : ℕ)
      → n ≢ k
      → m.mtx (slot o) ≡ some n
      → IsAtomic s m
      → Owns s (unlocked m n o old) k (m.threads k)
  unlock_other m n k o old other own h c g =
      let (own', midway) = h.owners k c g in
      let clear = apart s m n k (slot o) (slot c) other own own' in
      (
        put_other m.mtx (slot o) none (slot c) clear ∙ own',
        subst (λ a. IsMidway (m.threads k) a (m.hit_list (slot c)))
            (sym (
              ap (λ f. f (slot c)) (step-hit_list (replay s m.history) o)
              ∙ put_other (entry_of s m.history) (slot o) (final o) (slot c) clear))
            midway,
      )

  ReadsOf-Reads :
      (now : Moonsniff W) (o : Op) (old : ℕ)
      → ReadsOf o old (now.hit_list (slot o))
      → Reads s now o old
  unfolding ReadsOf old_ts
  ReadsOf-Reads now (add i t) old h = tt
  ReadsOf-Reads now (test i t) old h = h

  -- The entry of the call is as the call makes it, and the others are as they were.
  unlock_free :
      (m : Memory) (n : ℕ) (o : Op) (old j : ℕ)
      → m.hit_list (slot o) ≡ final o
      → IsAtomic s m
      → put m.mtx (slot o) none j ≡ none
      → m.hit_list j ≡ entry_of s ((o, old) ∷ m.history) j
  unlock_free m n o old j made h g =
      let a = entry_of s m.history in
      let replayed = ap (λ f. f j) (step-hit_list (replay s m.history) o) in
      elim (Bool-cases (slot o == j)) [
        | inl e ↦
            let same : slot o ≡ j = ground arith in
            ap m.hit_list (sym same)
            ∙ made
            ∙ sym (put_same a (slot o) (final o) j same)
            ∙ sym replayed
        | inr e ↦
            let away : slot o ≢ j = ground arith in
            h.free j (unput_none_at m.mtx (slot o) j away g)
            ∙ sym (put_other a (slot o) (final o) j away)
            ∙ sym replayed
      ]

  unlock-IsAtomic :
      (m : Memory) (n : ℕ) (o : Op) (old : ℕ)
      → finished (m.threads n) ≡ some (o, old)
      → IsAtomic s m
      → IsAtomic s (unlocked m n o old)
  unlock-IsAtomic m n o old over h =
      let fin = finished-Finished (m.threads n) (o, old) over in
      let (own, midway) = h.owners n o fin.held in
      let a = entry_of s m.history in
      record {
        sequential = (
          ReadsOf-Reads (replay s m.history) o old (fin.read (a (slot o)) _ midway),
          h.sequential,
        );
        free = λ j g. unlock_free m n o old j (fin.made (a (slot o)) _ midway) h g;
        owners = λ k.
            put-cases m.threads n outside (Owns s (unlocked m n o old) k) k (λ same c g. cc)
              (λ other. unlock_other m n k o old other own h);
      }

  Step-IsAtomic : {a b : Memory} → Step a b → IsAtomic s a → IsAtomic s b
  Step-IsAtomic {a} (call n o e) h = call-IsAtomic s a n o h
  Step-IsAtomic {a} (spin n o e) h = h
  Step-IsAtomic {a} (lock n o e e') h = lock-IsAtomic s a n o e' h
  Step-IsAtomic {a} (work n o p e held done) h = work-IsAtomic a n o p e held done h
  Step-IsAtomic {a} (unlock n o old over) h = unlock-IsAtomic a n o old over h

  start-IsAtomic : IsAtomic s (start s.hit_list)
  start-IsAtomic = record { sequential = tt; free = λ j e. refl; owners = λ n o e. cc }

  -- From a list whose entries are all unlocked, and however any number of threads interleave, statement
  -- by statement, in `add_entry` and the locked part of `test_for`: every entry that is not locked
  -- is as the calls leave it that have unlocked, run one after the other in the order of their
  -- unlocking; each of these tests read the time stamp that it reads in that run; and a thread
  -- that is between lock and unlock owns the lock of its entry.
  pub Reach-IsAtomic : {m : Memory} → Reach (start s.hit_list) m → IsAtomic s m
  Reach-IsAtomic here = start-IsAtomic
  Reach-IsAtomic (next r st) = Step-IsAtomic st (Reach-IsAtomic r)
