-- ===== src/Sniff/Table/Locks.antt =====
-- The threads of src/moonsniff.cpp on the hit list, statement by statement: `add_entry` and the part of
-- `test_for` that a lock guards.
use moon_gen_dpdk_v.Prelude.{ℕ, Bool, Option, none, some, List, [], ◌∷◌, ◌≡◌, ◌==◌, if◌then◌else◌}
use moon_gen_dpdk_v.Sniff.Table.{Entry, Op, add, test, index, update}

-- Where a thread is: outside, at `while(!try_lock());`, or holding the lock of its entry, by the
-- statements that are done. `old` is `old_ts`.
pub data Place : Type 0 where
  outside : Place
  trying : Op → Place
  add_locked : (identification timestamp : ℕ) → Place
  add_stamped : (identification timestamp : ℕ) → Place
  add_written : (identification timestamp : ℕ) → Place
  test_locked : (identification timestamp : ℕ) → Place
  test_compared : (identification timestamp : ℕ) → Bool → Place
  test_read : (identification timestamp old : ℕ) → Place
  test_unstamped : (identification timestamp old : ℕ) → Place
  test_cleared : (identification timestamp old : ℕ) → Place

-- Behind the lock.
abbrev pub enter : Op → Place
enter (add i t) = add_locked i t
enter (test i t) = test_locked i t

-- The next statement of a thread that holds a lock, on its entry.
unfoldable pub advance : Place → Entry → Option (Place × Entry)
advance (add_locked i t) e = some (add_stamped i t, record e { timestamp = t })
advance (add_stamped i t) e = some (add_written i t, record e { identifier = i })
advance (test_locked i t) e = some (test_compared i t (e.identifier == i), e)
advance (test_compared i t found) e = some (test_read i t (if found then e.timestamp else 0), e)
advance (test_read i t old) e = some (test_unstamped i t old, record e { timestamp = 0 })
advance (test_unstamped i t old) e = some (test_cleared i t old, record e { identifier = 0 })
advance _ e = none

-- At `unlock`: the call, with the `old_ts` of a test.
abbrev pub finished : Place → Option (Op × ℕ)
finished (add_written i t) = some (add i t, 0)
finished (test_cleared i t old) = some (test i t, old)
finished _ = none

-- The call that holds a lock.
abbrev pub holding : Place → Option Op
holding outside = none
holding (trying o) = none
holding (add_locked i t) = some (add i t)
holding (add_stamped i t) = some (add i t)
holding (add_written i t) = some (add i t)
holding (test_locked i t) = some (test i t)
holding (test_compared i t found) = some (test i t)
holding (test_read i t old) = some (test i t)
holding (test_unstamped i t old) = some (test i t)
holding (test_cleared i t old) = some (test i t)

abbrev pub identifier_of : Op → ℕ
identifier_of (add i t) = i
identifier_of (test i t) = i

abbrev pub slot : Op → ℕ
slot o = index (identifier_of o)

abbrev pub put : {A : Type 0} → (ℕ → A) → ℕ → A → ℕ → A
put f i a j = if i == j then a else f j

-- The list, the mutexes with the thread that holds each, and the threads. `history` are the calls
-- that have unlocked, the last first, with what they read.
pub record Memory : Type 0 where
  pub hit_list : ℕ → Entry
  pub mtx : ℕ → Option ℕ
  pub threads : ℕ → Place
  pub history : List (Op × ℕ)

-- No lock is held, and no thread is in a call.
abbrev pub start : (ℕ → Entry) → Memory
start hit_list = record {
  hit_list = hit_list;
  mtx = λ j. none;
  threads = λ n. outside;
  history = [];
}

abbrev pub called : Memory → ℕ → Op → Memory
called m n o = record m { threads = put m.threads n (trying o) }

abbrev pub locked : Memory → ℕ → Op → Memory
locked m n o = record m { mtx = put m.mtx (slot o) (some n); threads = put m.threads n (enter o) }

abbrev pub worked : Memory → ℕ → Op → Place → Entry → Memory
worked m n o p e = record m { hit_list = update m.hit_list (slot o) e; threads = put m.threads n p }

abbrev pub unlocked : Memory → ℕ → Op → ℕ → Memory
unlocked m n o old = record m {
  mtx = put m.mtx (slot o) none;
  threads = put m.threads n outside;
  history = (o, old) ∷ m.history;
}

-- A step of one thread. A `try_lock` that fails changes nothing.
pub data Step (m : Memory) : Memory → Type 0 where
  call : (n : ℕ) (o : Op) → m.threads n ≡ outside → Step m (called m n o)
  spin : (n : ℕ) (o : Op) → m.threads n ≡ trying o → Step m m
  lock : (n : ℕ) (o : Op) → m.threads n ≡ trying o → m.mtx (slot o) ≡ none → Step m (locked m n o)
  work :
      (n : ℕ) (o : Op) (p : Place) (e : Entry)
      → holding (m.threads n) ≡ some o
      → advance (m.threads n) (m.hit_list (slot o)) ≡ some (p, e)
      → Step m (worked m n o p e)
  unlock :
      (n : ℕ) (o : Op) (old : ℕ)
      → finished (m.threads n) ≡ some (o, old)
      → Step m (unlocked m n o old)

pub data Reach (m : Memory) : Memory → Type 0 where
  here : Reach m m
  next : {a b : Memory} → Reach m a → Step a b → Reach m b
