-- ===== src/Model/Order.antt =====
-- How the four models compare, under the order laws of numbers that are not NaN.
use cxlkvs.Prelude.{ℕ, ◌≤◌, ◌≡◌, refl, true, false, Bool-cases, inl, inr}
use cxlkvs.Py.Result.{ok}
use cxlkvs.Py.Num.{Num, max_num}
use cxlkvs.Model.{
  Kind, base, worst, best, done, OpTimeModel, Args, memory_term, io_term, limit, combine,
  reciprocal_throughput,
}

module _ (num : Num) where
  open num use {F, of_nat, add, sub, mul, pow, div, less, same}

  -- `a <= b`, for numbers that are not NaN
  abbrev pub Le : F → F → Type 0
  Le a b = less b a ≡ false

  abbrev pub IsNonneg : F → Type 0
  IsNonneg a = Le (of_nat 0) a

  -- Rounded arithmetic is monotone, and a sum with a number that is not negative does not fall.
  pub record IsMonotone : Type 0 where
    pub less_irrefl : (a : F) → less a a ≡ false
    pub less_asym : (a b : F) → less a b ≡ true → less b a ≡ false
    pub le_trans : (a b c : F) → Le a b → Le b c → Le a c
    pub of_nat_nonneg : (n : ℕ) → IsNonneg (of_nat n)
    -- a sum and a product are rounded alike in either order
    pub add_comm : (a b : F) → add a b ≡ add b a
    pub mul_comm : (a b : F) → mul a b ≡ mul b a
    pub sub_mono : (a b c : F) → Le a b → Le (sub a c) (sub b c)
    pub of_nat_mono : (m n : ℕ) → m ≤ n → Le (of_nat m) (of_nat n)
    pub add_mono : (a b c : F) → Le a b → Le (add a c) (add b c)
    pub le_add : (a c : F) → IsNonneg c → Le a (add a c)
    pub add_nonneg : (a b : F) → IsNonneg a → IsNonneg b → IsNonneg (add a b)
    pub mul_nonneg : (a b : F) → IsNonneg a → IsNonneg b → IsNonneg (mul a b)
    pub mul_mono : (a b c : F) → IsNonneg c → Le a b → Le (mul c a) (mul c b)
    pub div_nonneg : (a b : F) → IsNonneg a → IsNonneg b → IsNonneg (div a b)
    pub div_mono : (a b c : F) → IsNonneg c → Le a b → Le (div a c) (div b c)
    pub pow_nonneg : (a : F) (n : ℕ) → IsNonneg a → IsNonneg (pow a n)

  -- The laws of a division by a number above zero.
  pub record IsAntitone : Type 0 where
    pub div_anti :
        (n : ℕ) (a b : F)
        → less (of_nat 0) a ≡ true
        → Le a b
        → Le (div (of_nat n) b) (div (of_nat n) a)
    pub above_zero : (a : F) → less (of_nat 0) a ≡ true → same a (of_nat 0) ≡ false

  -- Times are not negative.
  pub record IsTimes (m : OpTimeModel num) (a : Args num) : Type 0 where
    pub switch_time : IsNonneg m.switch_time
    pub memory_time : IsNonneg a.memory_time
    pub io_time_pre : IsNonneg a.io_time_pre
    pub io_time_post : IsNonneg a.io_time_post
    pub memory_latency : IsNonneg a.memory_latency

  abbrev pub of_kind : Kind → OpTimeModel num → OpTimeModel num
  of_kind k m = record m { kind = k }

  module _ (laws : IsMonotone) where
    pub above : (a b : F) → less (of_nat 0) a ≡ true → Le a b → less (of_nat 0) b ≡ true
    above a b h le = elim (Bool-cases (less (of_nat 0) b)) [
      | inl e ↦ e
      | inr e ↦ cc (laws.le_trans a b (of_nat 0) le e, h)
    ]

    pub le_max_left : (a b : F) → Le a (max_num num a b)
    le_max_left a b = elim (Bool-cases (less a b)) [
      | inl lt ↦ rw lt (laws.less_asym a b lt)
      | inr ge ↦ rw ge (laws.less_irrefl a)
    ]

    pub le_max_right : (a b : F) → Le b (max_num num a b)
    le_max_right a b = elim (Bool-cases (less a b)) [
      | inl lt ↦ rw lt (laws.less_irrefl b)
      | inr ge ↦ rw ge ge
    ]

    pub max_le : (a b c : F) → Le a c → Le b c → Le (max_num num a b) c
    max_le a b c h k = elim (Bool-cases (less a b)) [ inl lt ↦ rw lt k | inr ge ↦ rw ge h ]

    max_mono : (a b c : F) → Le b c → Le (max_num num a b) (max_num num a c)
    max_mono a b c h =
        max_le a b (max_num num a c) (le_max_left a c)
          (laws.le_trans b c (max_num num a c) h (le_max_right a c))

    io_term-IsNonneg :
        (m : OpTimeModel num) (a : Args num) → IsTimes m a → IsNonneg (io_term num m a)
    unfolding io_term
    io_term-IsNonneg m a t =
        laws.add_nonneg _ _ (laws.add_nonneg _ _ t.io_time_pre t.io_time_post)
          (laws.mul_nonneg _ _ (laws.of_nat_nonneg 2) t.switch_time)

    module _ (m : OpTimeModel num) (a : Args num)
        (prefetches : same (of_nat m.num_prefetches) (of_nat 0) ≡ false) where
      abbrev lim : F
      lim = div (mul a.num_memory_accesses a.memory_latency) (of_nat m.num_prefetches)

      -- With at least one prefetch and times that are not negative, the base model, the best and the
      -- worst case all return a number, and in that order: the base is at most the best case, and
      -- the best case at most the worst.
      pub base-best-worst :
          IsTimes m a
          → (x y z : F) × (reciprocal_throughput num (of_kind base m) a ≡ done (ok x))
            × (reciprocal_throughput num (of_kind best m) a ≡ done (ok y))
            × (reciprocal_throughput num (of_kind worst m) a ≡ done (ok z))
            × Le x y
            × Le y z
      unfolding reciprocal_throughput combine memory_term io_term limit
      base-best-worst t =
          let memory = memory_term num m a in
          let io = io_term num m a in
          let io_nonneg = io_term-IsNonneg m a t in
          let high = max_num num memory lim in
          (
            add memory io,
            max_num num (add memory io) lim,
            add high io,
            refl,
            rw prefetches,
            rw prefetches,
            le_max_left (add memory io) lim,
            max_le (add memory io) lim (add high io)
                (laws.add_mono memory high io (le_max_left memory lim))
                (laws.le_trans lim high (add high io) (le_max_right memory lim)
                  (laws.le_add high io io_nonneg)),
          )

      abbrev slower : F → Args num
      slower l = record a { memory_latency = l }

      -- A longer memory latency makes neither the best nor the worst case faster, with at least one
      -- prefetch and a number of memory accesses that is not negative.
      pub latency_mono :
          (l : F)
          → IsNonneg a.num_memory_accesses
          → Le a.memory_latency l
          → (y y' z z' : F) × (reciprocal_throughput num (of_kind best m) a ≡ done (ok y))
            × (reciprocal_throughput num (of_kind best m) (slower l) ≡ done (ok y'))
            × (reciprocal_throughput num (of_kind worst m) a ≡ done (ok z))
            × (reciprocal_throughput num (of_kind worst m) (slower l) ≡ done (ok z'))
            × Le y y'
            × Le z z'
      unfolding reciprocal_throughput combine memory_term io_term limit
      latency_mono l nonneg h =
          let memory = memory_term num m a in
          let io = io_term num m a in
          let lim' = div (mul a.num_memory_accesses l) (of_nat m.num_prefetches) in
          let grows : Le lim lim' =
            laws.div_mono _ _ (of_nat m.num_prefetches) (laws.of_nat_nonneg m.num_prefetches)
              (laws.mul_mono a.memory_latency l a.num_memory_accesses nonneg h) in
          (
            max_num num (add memory io) lim,
            max_num num (add memory io) lim',
            add (max_num num memory lim) io,
            add (max_num num memory lim') io,
            rw prefetches,
            rw prefetches,
            rw prefetches,
            rw prefetches,
            max_mono (add memory io) lim lim' grows,
            laws.add_mono _ _ io (max_mono memory lim lim' grows),
          )
