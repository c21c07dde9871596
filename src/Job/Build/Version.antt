-- ===== src/Job/Build/Version.antt =====
-- cmd/ngstratum/job.go: setAlgoVersion, on uint32 arithmetic.
use Prim.Native.Nat.{bit_and, bit_or, bit_xor}
use ngpool.Prelude.{ℕ, ◌+◌, ◌-◌, ◌*◌, ◌^◌, ◌%◌, Option, none, some, if◌then◌else◌}
use ngpool.Prelude.Map.{lookup, string_eq}
use ngpool.Config.{ChainConfig, Algo}
use ngpool.Job.Slots.{u32}

-- A missing key of a Go map reads as zero.
abbrev or_zero : Option ℕ → ℕ
or_zero none = 0
or_zero (some n) = n

-- `((2 ^ width) - 1) << shift`, where Go's `^` is exclusive or.
abbrev algo_bits : ℕ → ℕ → ℕ
algo_bits width shift = (bit_xor 2 width + u32 - 1) % u32 * 2 ^ shift % u32

unfoldable pub set_algo_version : ℕ → ChainConfig → Algo → ℕ
set_algo_version version config algo =
    let algo_code = or_zero (lookup algo.name config.multi_algo_map) in
    let cleared =
      bit_and version
        (u32 - 1 - algo_bits config.multi_algo_bit_width config.multi_algo_bit_shift) in
    if config.multi_algo
    then bit_or cleared (algo_code * 2 ^ config.multi_algo_bit_shift % u32)
    else version
