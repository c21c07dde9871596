-- ===== src/Server/Status.antt =====
-- cmd/ngstratum/stratum.go, UpdateStatus, and RunBlockCastListener; cmd/ngstratum/client.go, status.
-- The rate is what the client's window gives, and a block is submitted by a parameter.
use ngpool.Prelude.{ℕ, ◌*◌, Option, none, some, List, [], ◌∷◌, if◌then◌else◌}
use ngpool.Prelude.Map.{Map, insert, bytes_eq}
use ngpool.Bytes.{Bytes}
use ngpool.Window.{Window}
use ngpool.Client.{Client}

pub record StratumClientStatus : Type 0 where
  pub username : Bytes
  pub hashrate : ℕ
  pub name : Bytes
  pub difficulty : ℕ

-- What its select takes: a client that connected, or a tick.
pub data StatusEvent : Type 0 where
  new_client : Client → StatusEvent
  tick : StatusEvent

module _ (rate_second : Window → ℕ) where
  unfoldable pub status : Client → StratumClientStatus
  status c = record {
    username = c.username;
    hashrate = rate_second c.share_window * 65536;
    name = c.worker;
    difficulty = c.diff;
  }

  -- The clients that are left after a tick, as `now` finds them, and their statuses.
  unfoldable tick_clients :
      (Client → Client) → Map Bytes Client → Map Bytes Client × List StratumClientStatus
  unfolding status
  tick_clients now [] = ([], [])
  tick_clients now ((id, c) ∷ clients) =
      let (left, statuses) = tick_clients now clients in
      let client = now c in
      if client.has_shutdown
      then (left, statuses)
      else ((id, client) ∷ left, status client ∷ statuses)

  -- A round of UpdateStatus, and what it pushes, if anything.
  unfoldable update_status_round :
      (Client → Client)
      → StatusEvent
      → Map Bytes Client
      → Map Bytes Client × Option (List StratumClientStatus)
  unfolding tick_clients insert
  update_status_round now (new_client c) clients = (insert c.id c clients, none)
  update_status_round now tick clients =
      let (left, statuses) = tick_clients now clients in (left, some statuses)
