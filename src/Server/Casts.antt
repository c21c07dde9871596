-- ===== src/Server/Casts.antt =====
-- cmd/ngstratum/stratum.go, RunBlockCastListener: the solved blocks that a watcher submits to its
-- coin server, not yet in hexadecimal. What the node answers is only logged.
use ngpool.Prelude.{String, Bool, List, [], ◌∷◌, if◌then◌else◌}
use ngpool.Prelude.Run.{Run, ok, panic, or_panic, ◌>>=◌}
use ngpool.Bytes.{Bytes}
use ngpool.Job.{BlockSolve}
use ngpool.Web.{rpc_host}

-- What its select takes.
data CastInput : Type 0 where
  shutdown : CastInput
  solve : BlockSolve → CastInput

-- The blocks of the calls of submitblock, until the watcher is shut down.
abbrev submit_block : List CastInput → List Bytes
submit_block [] = []
submit_block (shutdown ∷ inputs) = []
submit_block (solve block ∷ inputs) = block.solved ∷ submit_block inputs

-- A client that cannot be made panics, and so does an endpoint that is too short.
unfoldable run_block_cast_listener : (String → Bool) → String → List CastInput → Run (List Bytes)
run_block_cast_listener new_client endpoint inputs = or_panic (rpc_host endpoint) >>= λ host.
    if new_client host then ok (submit_block inputs) else panic
