-- ===== src/Microbench/Chain/Tests.antt =====
-- The theorems about the chain, the operations and the threads at concrete inputs.
use cxlkvs.Prelude.{ℕ, ◌+◌, ◌*◌, ◌≡◌, ◌≤◌, ◌<◌, ◌%◌, refl, some, All, length, arith}
use cxlkvs.Prelude.Int.{negsuc}
use cxlkvs.Microbench.Chain.{Item, store, load, Array, create_pointer_chain}
use cxlkvs.Microbench.Chain.Bytes.{load-store}
use cxlkvs.Microbench.Chain.Cycle.{IsCycle, create_pointer_chain-IsCycle}
use cxlkvs.Microbench.Main.Operation.{chase_pointers, fluctuated, io_addr, chase_pointers-io_addr}
use cxlkvs.Microbench.Main.Threads.{shares, total_of, compare_latencies}
use cxlkvs.Microbench.Main.Threads.Shares.{
  Follows, IsFair, shares-Follows, compare_latencies-difference,
}

load-store_example : load (store 0x0123456789abcdef) ≡ 0x0123456789abcdef
load-store_example = load-store 0x0123456789abcdef (omega arith)

abbrev rand : ℕ → ℕ
rand i = i * 7 + 3

create_pointer_chain-IsCycle_example :
    (chain : Array Item) × (create_pointer_chain rand 2147483647 (λ k. 99) (3 + 2) ≡ some chain)
    × (chain.len ≡ 3 + 2)
    × IsCycle (3 + 2) chain
create_pointer_chain-IsCycle_example =
    create_pointer_chain-IsCycle 3 (omega arith) rand 2147483647 (λ k. 99)

chase_pointers-io_addr_example :
    (chain : Array Item) × (create_pointer_chain rand 2147483647 (λ k. 99) (3 + 2) ≡ some chain)
    × (p : ℕ) × (chase_pointers rand (fluctuated 10 7) (3 + 2) chain ≡ some p)
    × (p < 3 + 2)
    × (io_addr 10000 4096 p + 4096 ≤ 10000)
    × (io_addr 10000 4096 p % 4096 ≡ 0)
chase_pointers-io_addr_example =
    chase_pointers-io_addr rand 2147483647 (λ k. 99) 3 (omega arith) rand 7 10 10000 4096
      (omega arith) (omega arith)

shares-Follows_example :
    (length (shares 10 3) ≡ 3)
    × Follows 0 (shares 10 3) 10
    × All (IsFair 10 3) (shares 10 3)
    × (total_of (shares 10 3) ≡ 10)
shares-Follows_example = shares-Follows 10 3 (omega arith) (omega arith) (omega arith)

compare_latencies-difference_example : compare_latencies 1500 4000 ≡ negsuc 2499
compare_latencies-difference_example =
    compare_latencies-difference 1500 4000 (omega arith) (omega arith) (omega arith) (omega arith)

-- 2^31 nanoseconds and none: the longer latency is ordered before the shorter
compare_latencies_far : compare_latencies 2147483648 0 ≡ negsuc 2147483647
unfolding compare_latencies
compare_latencies_far = refl
