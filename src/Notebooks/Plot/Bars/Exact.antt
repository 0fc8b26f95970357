-- ===== src/Notebooks/Plot/Bars/Exact.antt =====
-- A matplotlib that draws what has as many values as positions, and raises otherwise.
use cxlkvs.Prelude.{refl, length, nat_eq, ◌==◌, if◌then◌else◌}
use cxlkvs.Py.Result.{ok, err, value_error}
use cxlkvs.Notebooks.Plot.Bars.{Pyplot, IsPyplot}

module _ {F : Type 0} where
  abbrev pub exact : Pyplot F
  exact = record {
    plot = λ xs ys. if length xs == length ys then ok tt else err value_error;
    bar = λ n ys. if length ys == n then ok tt else err value_error;
  }

  pub exact-IsPyplot : IsPyplot exact
  exact-IsPyplot = record {
    plot_ok = λ xs ys h. rw ((nat_eq.equal_iff (length xs) (length ys)).1 h) refl;
    bar_ok = λ n ys h. rw ((nat_eq.equal_iff (length ys) n).1 h) refl;
  }
