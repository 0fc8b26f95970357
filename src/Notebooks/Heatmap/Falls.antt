-- ===== src/Notebooks/Heatmap/Falls.antt =====
-- The rows of a heat map of notebooks/model.ipynb fall from left to right.
use cxlkvs.Prelude.{◌≡◌, refl, true, List, [], ◌∷◌, All, map}
use cxlkvs.Py.Num.{Num}
use cxlkvs.Py.Result.{ok, traverse}
use cxlkvs.Model.{done, and_then, Args, reciprocal_throughput}
use cxlkvs.Model.Order.{above, IsAntitone, Le, IsNonneg, IsMonotone}
use cxlkvs.Model.Latency.{at_latency, probabilistic_mono}
use cxlkvs.Notebooks.Heatmap.{
  memory_time_axis, io_time_pre_axis, io_time_post_axis, num_memory_accesses_axis, Axis, model,
  args_of, pixels, image, percent,
}

module _ (num : Num) where
  open num use {F, of_nat, mul, div, less, same}

  abbrev pub Ascends : List F → Type 0
  Ascends [] = Unit
  Ascends (x ∷ xs) = All (λ y. Le num x y) xs × Ascends xs

  -- no value is above one on its left
  abbrev pub Falls : List F → Type 0
  Falls [] = Unit
  Falls (x ∷ xs) = All (λ y. Le num y x) xs × Falls xs

  module _ (laws : IsMonotone num) (anti : IsAntitone num) where
    all_le :
        (a b : F) (xs : List F) → Le num a b → All (λ y. Le num y a) xs → All (λ y. Le num y b) xs
    all_le a b [] h k = tt
    all_le a b (x ∷ xs) h k = (laws.le_trans x a b k.0 h, all_le a b xs h k.1)

    -- one row, right of a latency at which the model takes the time `p`
    pixels-Falls :
        (a : Args num) (p : F) (ls : List F)
        → IsNonneg num a.num_memory_accesses
        → reciprocal_throughput num (model num) a ≡ done (ok p)
        → less (of_nat 0) p ≡ true
        → All (λ l. Le num a.memory_latency l) ls
        → Ascends ls
        → (row : List F) × (pixels num (at_latency num a) ls ≡ done (ok row))
          × All (λ y. Le num y (div (of_nat 1) p)) row
          × Falls row
    unfolding pixels and_then model
    pixels-Falls a p [] nonneg e above_zero h k = ([], refl, tt, tt)
    pixels-Falls a p (l ∷ ls) nonneg e above_zero h k =
        let (q, e1, le) = probabilistic_mono num laws (model num) a l p nonneg h.0 e in
        let q_above = above num laws p q above_zero le in
        let (row, e2, bounded, falls) =
          pixels-Falls (at_latency num a l) q ls nonneg e1 q_above k.0 k.1 in
        let pixel = div (of_nat 1) q in
        let lower : Le num pixel (div (of_nat 1) p) = anti.div_anti 1 p q above_zero le in
        (
          pixel ∷ row,
          rw (e1, anti.above_zero q q_above, e2),
          (lower, all_le pixel (div (of_nat 1) p) row lower bounded),
          (bounded, falls),
        )

    -- What the model takes at the first latency, for one value of the varied parameter.
    pub record IsTimed (axis : Axis) (v l : F) : Type 0 where
      pub time : F
      pub returns : reciprocal_throughput num (model num) (args_of num axis v l) ≡ done (ok time)
      pub above_zero : less (of_nat 0) time ≡ true
      pub accesses : IsNonneg num (args_of num axis v l).num_memory_accesses

    -- the pixels of a row differ in the latency alone
    args_of-latency :
        (axis : Axis) (v l : F) → args_of num axis v ≡ at_latency num (args_of num axis v l)
    unfolding args_of
    args_of-latency memory_time_axis v l = refl
    args_of-latency io_time_pre_axis v l = refl
    args_of-latency io_time_post_axis v l = refl
    args_of-latency num_memory_accesses_axis v l = refl

    first_latency : (axis : Axis) (v l : F) → (args_of num axis v l).memory_latency ≡ l
    unfolding args_of
    first_latency memory_time_axis v l = refl
    first_latency io_time_pre_axis v l = refl
    first_latency io_time_post_axis v l = refl
    first_latency num_memory_accesses_axis v l = refl

    percent-Falls :
        (x : F) (xs : List F)
        → IsNonneg num x
        → Falls (x ∷ xs)
        → (ys : List F) × (percent num (x ∷ xs) ≡ ok ys) × Falls ys
    unfolding percent
    percent-Falls x xs h k = (_, refl, scaled (x ∷ xs) k)
      where
        g : F → F
        g y = mul y (div (of_nat 100) x)

        g_mono : (y z : F) → Le num y z → Le num (g y) (g z)
        g_mono y z le =
            rw (laws.mul_comm y _, laws.mul_comm z _)
              (laws.mul_mono y z _ (laws.div_nonneg _ _ (laws.of_nat_nonneg 100) h) le)

        scaled_all :
            (y : F) (ys : List F) → All (λ z. Le num z y) ys → All (λ z. Le num z (g y)) (map g ys)
        scaled_all y [] a = tt
        scaled_all y (z ∷ zs) a = (g_mono z y a.0, scaled_all y zs a.1)

        scaled : (ys : List F) → Falls ys → Falls (map g ys)
        scaled [] f = tt
        scaled (y ∷ ys) f = (scaled_all y ys f.0, scaled ys f.1)

    row-Falls :
        (axis : Axis) (v l : F) (ls : List F)
        → Ascends (l ∷ ls)
        → (t : IsTimed axis v l)
        → (row : List F) × (pixels num (args_of num axis v) (l ∷ ls)
            ≡ done (ok (div (of_nat 1) t.time ∷ row)))
          × Falls (div (of_nat 1) t.time ∷ row)
    unfolding pixels and_then model
    row-Falls axis v l ls asc t =
        let first : All (λ m. Le num (args_of num axis v l).memory_latency m) ls =
          rw (first_latency axis v l) asc.0 in
        let (row, e, bounded, falls) =
          pixels-Falls (args_of num axis v l) t.time ls t.accesses t.returns t.above_zero first
            asc.1 in
        let e' : pixels num (args_of num axis v) ls ≡ done (ok row) =
          rw (args_of-latency axis v l) e in
        (row, rw (t.returns, anti.above_zero t.time t.above_zero, e'), (bounded, falls))

    -- Whichever parameter varies, at ascending latencies, where the model takes a time above zero at the
    -- first latency for each value, with a number of memory accesses that is not negative: both loops
    -- return, so does the division by the first column, and in every row of the result, from left to
    -- right, no pixel is above one before it.
    pub image-Falls :
        (axis : Axis) (vs : List F) (l : F) (ls : List F)
        → Ascends (l ∷ ls)
        → All (λ v. IsTimed axis v l) vs
        → (img : List (List F)) × (percents : List (List F)) × (image num axis vs (l ∷ ls)
            ≡ done (ok img))
          × (traverse (percent num) img ≡ ok percents)
          × All Falls percents
    unfolding image and_then traverse
    image-Falls axis [] l ls asc timed = ([], [], refl, refl, tt)
    image-Falls axis (v ∷ vs) l ls asc timed =
        let t = timed.0 in
        let (row, e1, falls) = row-Falls axis v l ls asc t in
        let (img, percents, e2, e3, rest) = image-Falls axis vs l ls asc timed.1 in
        let pixel = div (of_nat 1) t.time in
        let nonneg = laws.div_nonneg _ _ (laws.of_nat_nonneg 1) (laws.less_asym _ _ t.above_zero) in
        let (ys, e4, falls') = percent-Falls pixel row nonneg falls in
        ((pixel ∷ row) ∷ img, ys ∷ percents, rw (e1, e2), rw (e4, e3), (falls', rest))
