-- ===== src/Server/Miner.antt =====
-- cmd/ngstratum/stratum.go, Miner: the CPU miner, a round for each nonce on the job that it has.
use ngpool.Prelude.{ℕ, ◌+◌, ◌/◌, ◌%◌, String, Option, none, some, List, [], ◌∷◌}
use ngpool.Prelude.Run.{Run, ok, err, panic, out_of_fuel, ◌>>=◌}
use ngpool.Bytes.{Bytes}
use ngpool.Template.{Deps, extra_nonce_magic}
use ngpool.Job.{Job, BlockSolve, Checked, check_solves}
use ngpool.Server.Shares.Listen.{submit_blocks}

-- binary.BigEndian.PutUint32
abbrev put_uint32 : ℕ → Bytes
put_uint32 n = n / 16777216 % 256 ∷ n / 65536 % 256 ∷ n / 256 % 256 ∷ n % 256 ∷ []

abbrev solved : Run Checked → Run (List (String × BlockSolve))
solved (ok c) = ok c.solves
solved (err message) = ok []
solved panic = panic
solved out_of_fuel = out_of_fuel

-- What a round submits to the broadcasters that there are, and the next nonce. Without a job it
-- waits, and an error of CheckSolves is logged.
unfoldable mine : Deps → List String → Option Job → ℕ → Run (List (String × BlockSolve) × ℕ)
unfolding check_solves
mine deps casts none i = ok ([], i)
mine deps casts (some job) i =
    solved (check_solves deps job (put_uint32 i) extra_nonce_magic none) >>= λ solves.
    submit_blocks casts solves [] >>= λ submitted. ok (submitted, (i + 1) % 4294967296)
