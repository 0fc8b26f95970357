-- ===== src/Model/Tests.antt =====
-- The theorems about the models at concrete numbers.
use cxlkvs.Prelude.{ℕ, ◌≡◌, refl}
use cxlkvs.Py.Result.{Result, ok}
use cxlkvs.Model.{
  comb, round, outer_loop, start, finish, combine, memory_term, io_term, worst, base, best,
  probabilistic, done, OpTimeModel, Args, reciprocal_throughput, combine, outer_loop, round, finish,
  all_fit,
}
use cxlkvs.Model.Order.{Le, IsTimes, of_kind, base-best-worst, latency_mono}
use cxlkvs.Model.Waiting.{base-le-probabilistic}
use cxlkvs.Model.Fixed.{fixed_num, fixed_num-IsMonotone, fixed_num-IsAccurate}
use cxlkvs.Model.Latency.{probabilistic_mono}
use cxlkvs.Model.Rounds.{reciprocal_throughput_ends, Returns}

-- one prefetch for each of four memory accesses
abbrev model : OpTimeModel fixed_num
model = record { kind = base; switch_time = 500000000; num_prefetches = 4 }

abbrev args : Args fixed_num
args = record {
  num_memory_accesses = 1000000000;
  memory_time = 2000000000;
  io_time_pre = 10000000000;
  io_time_post = 20000000000;
  memory_latency = 100000000000;
}

args-IsTimes : IsTimes fixed_num model args
args-IsTimes = record {
  switch_time = refl;
  memory_time = refl;
  io_time_pre = refl;
  io_time_post = refl;
  memory_latency = refl;
}

base-best-worst_example :
    (x y z : ℕ) × (reciprocal_throughput fixed_num (of_kind fixed_num base model) args
      ≡ done (ok x))
    × (reciprocal_throughput fixed_num (of_kind fixed_num best model) args ≡ done (ok y))
    × (reciprocal_throughput fixed_num (of_kind fixed_num worst model) args ≡ done (ok z))
    × Le fixed_num x y
    × Le fixed_num y z
base-best-worst_example =
    base-best-worst fixed_num fixed_num-IsMonotone model args refl args-IsTimes

latency_mono_example :
    (y y' z z' : ℕ) × (reciprocal_throughput fixed_num (of_kind fixed_num best model) args
      ≡ done (ok y))
    × (reciprocal_throughput fixed_num
          (of_kind fixed_num best model)
          (record args { memory_latency = 500000000000 })
        ≡ done (ok y'))
    × (reciprocal_throughput fixed_num (of_kind fixed_num worst model) args ≡ done (ok z))
    × (reciprocal_throughput fixed_num
          (of_kind fixed_num worst model)
          (record args { memory_latency = 500000000000 })
        ≡ done (ok z'))
    × Le fixed_num y y'
    × Le fixed_num z z'
latency_mono_example =
    latency_mono fixed_num fixed_num-IsMonotone model args refl 500000000000 refl refl

reciprocal_throughput_ends_example :
    (r : Result ℕ) × (reciprocal_throughput fixed_num (of_kind fixed_num probabilistic model) args
      ≡ done r)
    × Returns r
reciprocal_throughput_ends_example =
    reciprocal_throughput_ends fixed_num fixed_num-IsAccurate
      (of_kind fixed_num probabilistic model) args refl

-- 2644.70635866, in the units of `args`
abbrev expected : ℕ
expected = 264470635866

probabilistic_time :
    reciprocal_throughput fixed_num (of_kind fixed_num probabilistic model) args
    ≡ done (ok expected)
unfolding reciprocal_throughput combine outer_loop all_fit round finish start memory_term io_term
    comb
probabilistic_time = refl

base-le-probabilistic_example :
    (x : ℕ) × (reciprocal_throughput fixed_num (of_kind fixed_num base model) args ≡ done (ok x))
    × Le fixed_num x expected
base-le-probabilistic_example =
    base-le-probabilistic fixed_num fixed_num-IsMonotone model args expected refl probabilistic_time

probabilistic_mono_example :
    (q : ℕ) × (reciprocal_throughput fixed_num
        (of_kind fixed_num probabilistic model)
        (record args { memory_latency = 500000000000 })
      ≡ done (ok q))
    × Le fixed_num expected q
probabilistic_mono_example =
    probabilistic_mono fixed_num fixed_num-IsMonotone model args 500000000000 expected refl refl
      probabilistic_time
