-- ===== src/Notebooks/Compared/Lines.antt =====
-- What the last cell of notebooks/microbench.ipynb makes of curves of the same length.
use cxlkvs.Prelude.{
  Bool, zero, suc, false, some, In, inl, inr, get_elem?, ℕ, ◌<◌, ◌≡◌, ◌∙◌, sym, refl, List, [], ◌∷◌,
  length, text_eq, nat_eq, arith,
}
use cxlkvs.Py.Text.{Text, codes}
use cxlkvs.Py.Num.{Num, IsOrdered}
use cxlkvs.Py.Sort.{min_list}
use cxlkvs.Py.Sort.Least.{min_list-least, less-IsStrict, greater-IsStrict}
use cxlkvs.Py.Result.{ok}
use cxlkvs.Py.Dict
use cxlkvs.Py.Dict.{Dict}
use cxlkvs.Notebooks.Plot.{label_of}
use cxlkvs.Notebooks.Compared.{zip_div, array_div, estimates, report, report_from}
use cxlkvs.Notebooks.Compared.Aligned.{IsAligned}

module _ (num : Num) where
  open num use {F, of_nat, sub, mul, div, less}

  array_div-zip_div :
      (xs ys : List F) → length xs ≡ length ys → array_div num xs ys ≡ ok (zip_div num xs ys)
  unfolding array_div zip_div
  array_div-zip_div [] [] h = refl
  array_div-zip_div [] (y ∷ ys) h = absurd (omega (arith, h))
  array_div-zip_div (x ∷ xs) [] h = absurd (omega (arith, h))
  array_div-zip_div (x ∷ []) (y ∷ []) h = refl
  array_div-zip_div (x ∷ []) (y ∷ z ∷ ys) h = absurd (omega (arith, h))
  array_div-zip_div (x ∷ w ∷ xs) (y ∷ []) h = absurd (omega (arith, h))
  array_div-zip_div (x ∷ w ∷ xs) (y ∷ z ∷ ys) h =
      rw ((nat_eq.equal_iff (length (x ∷ w ∷ xs)) (length (y ∷ z ∷ ys))).1 h) refl

  -- the ratio of two values at the same place
  abbrev pub IsRatio : List F → List F → F → Type 0
  IsRatio curve measured r =
      (i : ℕ) × (x y : F) × (get_elem? curve i ≡ some x)
      × (get_elem? measured i ≡ some y)
      × (r ≡ div x y)

  -- The label, (high - 1) * 100 for the greatest of the ratios, and (1 - low) * 100 for the least.
  abbrev pub Line : List F → List F → Text → Text × F × F → Type 0
  Line curve measured label line =
      (line.0 ≡ label)
      × ((high low : F) × IsRatio curve measured high
          × IsRatio curve measured low
          × ((r : F) → IsRatio curve measured r → (less high r ≡ false) × (less r low ≡ false))
          × (line.1 ≡ mul (sub high (of_nat 1)) (of_nat 100))
          × (line.2 ≡ mul (sub (of_nat 1) low) (of_nat 100)))

  zip_div-IsRatio : (xs ys : List F) (r : F) → In r (zip_div num xs ys) → IsRatio xs ys r
  unfolding zip_div
  zip_div-IsRatio [] ys r h = absurd h
  zip_div-IsRatio (x ∷ xs) [] r h = absurd h
  zip_div-IsRatio (x ∷ xs) (y ∷ ys) r (inl same) = (0, x, y, refl, refl, same)
  zip_div-IsRatio (x ∷ xs) (y ∷ ys) r (inr later) =
      let (i, a, b, p, q, e) = zip_div-IsRatio xs ys r later in (suc i, a, b, p, q, e)

  In-zip_div :
      (xs ys : List F) (i : ℕ) (x y : F)
      → get_elem? xs i ≡ some x
      → get_elem? ys i ≡ some y
      → In (div x y) (zip_div num xs ys)
  unfolding zip_div
  In-zip_div [] ys i x y h k = cc h
  In-zip_div (a ∷ xs) [] i x y h k = cc k
  In-zip_div (a ∷ xs) (b ∷ ys) zero x y h k =
      let left : a ≡ x = cc h in let right : b ≡ y = cc k in inl (rw (left, right) refl)
  In-zip_div (a ∷ xs) (b ∷ ys) (suc i) x y h k = inr (In-zip_div xs ys i x y h k)

  zip_div-cons :
      (xs ys : List F) (n : ℕ)
      → length xs ≡ n
      → length ys ≡ n
      → 0 < n
      → (z : F) × (zs : List F) × (zip_div num xs ys ≡ z ∷ zs)
  unfolding zip_div
  zip_div-cons [] ys n h k l = absurd (omega (arith, h))
  zip_div-cons (x ∷ xs) [] n h k l = absurd (omega (arith, k))
  zip_div-cons (x ∷ xs) (y ∷ ys) n h k l = (_, _, refl)

  min_list-ok :
      (test : F → F → Bool) (zs : List F) (x : F) (xs : List F)
      → zs ≡ x ∷ xs
      → (m : F) × (min_list test zs ≡ ok m)
  unfolding min_list
  min_list-ok test zs x xs e = rw e (_, refl)

  estimates-Line :
      IsOrdered num
      → (label : Text) (xs ys : List F) (n : ℕ) → length xs ≡ n
      → length ys ≡ n
      → 0 < n
      → (e : F × F) × (estimates num (zip_div num xs ys) ≡ ok e)
        × Line xs ys label (label, e.0, e.1)
  unfolding estimates
  estimates-Line laws label xs ys n h k l =
      let (z, zs, c) = zip_div-cons xs ys n h k l in
      let (high, eh) = min_list-ok (λ a b. less b a) (zip_div num xs ys) z zs c in
      let (low, el) = min_list-ok less (zip_div num xs ys) z zs c in
      let (hin, hmax) = min_list-least (λ a b. less b a) (greater-IsStrict num laws) _ high eh in
      let (lin, lmin) = min_list-least less (less-IsStrict num laws) _ low el in
      (
        (mul (sub high (of_nat 1)) (of_nat 100), mul (sub (of_nat 1) low) (of_nat 100)),
        rw (eh, el) refl,
        (
          refl,
          (
            high,
            low,
            zip_div-IsRatio xs ys high hin,
            zip_div-IsRatio xs ys low lin,
            λ r (i, x, y, p, q, e).
                let member = In-zip_div xs ys i x y p q in
                (rw e (hmax (div x y) member), rw e (lmin (div x y) member)),
            refl,
            refl,
          ),
        ),
      )

  pub report-IsAligned :
      IsOrdered num
      → (n : ℕ) (d : Dict Text (List F)) → 0 < n
      → (a : IsAligned num n d)
      → (w : Text × F × F) × (p : Text × F × F) × (b : Text × F × F) × (report num d
          ≡ ok (w ∷ p ∷ b ∷ []))
        × Line a.worst a.measured (label_of (codes "worst")) w
        × Line a.prob a.measured (label_of (codes "prob")) p
        × Line a.best a.measured (label_of (codes "best")) b
  unfolding report report_from Dict.get label_of
  report-IsAligned laws n d h a =
      let (ew, fw, lw) =
        estimates-Line laws (label_of (codes "worst")) a.worst a.measured n a.worst_length
          a.measured_length h in
      let (ep, fp, lp) =
        estimates-Line laws (label_of (codes "prob")) a.prob a.measured n a.prob_length
          a.measured_length h in
      let (eb, fb, lb) =
        estimates-Line laws (label_of (codes "best")) a.best a.measured n a.best_length
          a.measured_length h in
      (
        (label_of (codes "worst"), ew.0, ew.1),
        (label_of (codes "prob"), ep.0, ep.1),
        (label_of (codes "best"), eb.0, eb.1),
        rw (
          a.curves,
          array_div-zip_div a.worst a.measured (a.worst_length ∙ sym a.measured_length),
          fw,
          array_div-zip_div a.prob a.measured (a.prob_length ∙ sym a.measured_length),
          fp,
          array_div-zip_div a.best a.measured (a.best_length ∙ sym a.measured_length),
          fb,
        ),
        lw,
        lp,
        lb,
      )
