-- ===== src/Sniff/Table.antt =====
-- The hit list and the statistics of src/moonsniff.cpp. A spin lock guards each entry of the list, so
-- that `add_entry` and the first part of `test_for` are atomic on their entry; the statistics are
-- modelled for one thread that calls `test_for`.
pub mod History
pub mod Locks
pub mod Midway
pub mod Owners
pub mod Atomic
pub mod Tests
use Prim.Native.Nat.{bit_and}
use moon_gen_dpdk_v.Prelude.{
  ℕ, zero, suc, ◌+◌, Bool, List, [], ◌∷◌, ltb, ◌==◌, if◌then◌else◌, u32, u64, sub_u64,
}
use moon_gen_dpdk_v.Prelude.Int.{ℤ, pos, ltb_ℤ, signed64}
use moon_gen_dpdk_v.Double.{Double}

pub record MsStats : Type 0 where
  pub average_latency : ℤ
  pub variance_latency : ℤ
  pub hits : ℕ
  pub misses : ℕ
  pub inval_ts : ℕ

pub record Entry : Type 0 where
  pub timestamp : ℕ
  pub identifier : ℕ

-- The variables of the namespace. `warnings` counts the messages on standard error.
pub record Moonsniff (W : Type 0) : Type 0 where
  pub thresh : ℤ
  pub count : ℕ
  pub m2 : W
  pub mean : W
  pub variance : W
  pub stats : MsStats
  pub hit_list : ℕ → Entry
  pub warnings : ℕ

-- `identification & INDEX_MASK`
unfoldable pub index : ℕ → ℕ
index identification = bit_and identification 0x00FFFFFF

abbrev pub update : (ℕ → Entry) → ℕ → Entry → ℕ → Entry
update f i e j = if i == j then e else f j

abbrev pub no_entry : Entry
no_entry = record { timestamp = 0; identifier = 0 }

module _ {W : Type 0} ⦃d : Double W⦄ where
  unfoldable pub initial : Moonsniff W
  initial = record {
    thresh = pos 0;
    count = 0;
    m2 = d.decimal 0 0;
    mean = d.decimal 0 0;
    variance = d.decimal 0 0;
    stats = record {
      average_latency = pos 0;
      variance_latency = pos 0;
      hits = 0;
      misses = 0;
      inval_ts = 0;
    };
    hit_list = λ _. no_entry;
    warnings = 0;
  }

  unfoldable pub set_thresh : ℤ → Moonsniff W → Moonsniff W
  set_thresh thresh s = record s { thresh = thresh }

  unfoldable pub add_entry : ℕ → ℕ → Moonsniff W → Moonsniff W
  add_entry identification timestamp s = record s {
    hit_list =
        update s.hit_list (index identification)
          (record { timestamp = timestamp; identifier = identification });
  }

  -- The update of mean and variance, as the code has it after `++count`.
  unfoldable pub measure : ℤ → Moonsniff W → Moonsniff W
  measure diff s =
      let count = u64 (s.count + 1) in
      let delta = d.sub (d.of_i64 diff) s.mean in
      let mean = d.add s.mean (d.div delta (d.of_u64 count)) in
      let delta2 = d.sub (d.of_i64 diff) mean in
      record s { count = count; mean = mean; m2 = d.add s.m2 (d.mul delta delta2) }

  -- The time stamp that `test_for` takes out of the list, or 0.
  unfoldable pub old_ts : ℕ → Moonsniff W → ℕ
  old_ts identification s =
      let e = s.hit_list (index identification) in
      if e.identifier == identification then e.timestamp else 0

  abbrev pub cleared : ℕ → Moonsniff W → Moonsniff W
  cleared identification s = record s {
    hit_list = update s.hit_list (index identification) no_entry;
  }

  abbrev pub warn_below : ℤ → Moonsniff W → Moonsniff W
  warn_below diff s = if ltb_ℤ diff s.thresh then record s { warnings = s.warnings + 1 } else s

  abbrev pub hit : Moonsniff W → Moonsniff W
  hit s = record s { stats = record s.stats { hits = u32 (s.stats.hits + 1) } }

  abbrev pub miss : Moonsniff W → Moonsniff W
  miss s = record s { stats = record s.stats { misses = u32 (s.stats.misses + 1) } }

  unfoldable pub test_for : ℕ → ℕ → Moonsniff W → Moonsniff W
  unfolding old_ts measure
  test_for identification timestamp s =
      let old = old_ts identification s in
      let s1 = cleared identification s in
      if old == 0
      then miss s1
      else let diff = signed64 (sub_u64 timestamp old) in measure diff (warn_below diff (hit s1))

  unfoldable pub fetch_stats : Moonsniff W → Moonsniff W × MsStats
  fetch_stats s =
      let finished : Moonsniff W =
        (if ltb s.count 2
          then record s { warnings = s.warnings + 1 }
          else record s { variance = d.div s.m2 (d.of_u64 (sub_u64 s.count 1)) }) in
      let stats : MsStats = record finished.stats {
        average_latency = d.to_i64 finished.mean;
        variance_latency = d.to_i64 finished.variance;
      } in
      (record finished { stats = stats }, stats)

-- The calls that the packet threads make.
pub data Op : Type 0 where
  add : ℕ → ℕ → Op
  test : ℕ → ℕ → Op

module _ {W : Type 0} ⦃d : Double W⦄ where
  unfoldable pub step : Moonsniff W → Op → Moonsniff W
  unfolding add_entry test_for
  step s (add i t) = add_entry i t s
  step s (test i t) = test_for i t s

  unfoldable pub run : Moonsniff W → List Op → Moonsniff W
  unfolding step
  run s [] = s
  run s (o ∷ ops) = run (step s o) ops
