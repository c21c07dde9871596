-- ===== src/Client.antt =====
-- cmd/ngstratum/client.go and stratum_json.go: one miner's connection. The read loop and the write
-- loop are two functions of a step over the state that they share; the channels between them and to
-- the server are lists in that state. Encoding a reply never fails, and no send blocks.
pub mod Messages
pub mod Read
pub mod Write
use ngpool.Prelude.{
  ℕ, ◌+◌, ◌*◌, ◌/◌, Bool, true, false, String, Option, none, some, List, [], ◌∷◌, ◌++◌, ◌==◌,
  if◌then◌else◌, take,
}
use ngpool.Prelude.Int.{ℤ, pos}
use ngpool.Prelude.Map.{Map}
use ngpool.Prelude.Run.{Run, ok, err, panic, ◌>>=◌}
use ngpool.Bytes.{Bytes, hex_decode}
use ngpool.Window
use ngpool.Window.{Window}
use ngpool.Vardiff.{Tuner, compute_new}
use ngpool.Job.{Job, BlockSolve, StratumParams}
use ngpool.Client.Messages.{Reply, set_difficulty, MiningSubmit}

pub record ClientJob : Type 0 where
  pub job : Job
  pub id : Bytes
  pub difficulty : ℕ
  pub submission_map : Map Bytes Bool

pub record Share : Type 0 where
  pub username : Bytes
  pub worker : Bytes
  pub time : ℕ
  pub difficulty : ℕ
  pub currencies : List String
  pub blocks : Map String BlockSolve

-- `job_book` is the write loop's own. `sent`, `shares` and `submits` hold what was put into the
-- channels `write`, `newShare` and `submit`, and `registered` says whether the job broadcaster has
-- the client's listener.
pub record Client : Type 0 where
  pub id : Bytes
  pub user_agent : Bytes
  pub username : Bytes
  pub worker : Bytes
  pub subscribed : Bool
  pub rpc_version2 : Bool
  pub login_msg_id : ℤ
  pub diff : ℕ
  pub has_shutdown : Bool
  pub registered : Bool
  pub share_window : Window
  pub job_book : Map Bytes ClientJob
  pub sent : List Reply
  pub submits : List MiningSubmit
  pub shares : List Share

-- NewClient, for the random id of the connection.
abbrev pub new_client : Bytes → Client
new_client id = record {
  id = id;
  user_agent = [];
  username = [];
  worker = [];
  subscribed = false;
  rpc_version2 = false;
  login_msg_id = pos 0;
  diff = 0;
  has_shutdown = false;
  registered = false;
  share_window = Window.new_window 50;
  job_book = [];
  sent = [];
  submits = [];
  shares = [];
}

unfoldable pub stop : Client → Client
stop c = if c.has_shutdown then c else record c { has_shutdown = true; registered = false }

abbrev pub send : Reply → Client → Client
send r c = record c { sent = c.sent ++ r ∷ [] }

-- A valid id is hexadecimal, so decoding it has no fault.
abbrev pub extranonce1 : Client → Bytes
extranonce1 c = (hex_decode c.id).0

-- `rate` is RateMinute's value, which depends on the clock.
unfoldable pub update_diff : Tuner → ℕ → Client → Run Client
update_diff tuner rate c = compute_new tuner rate >>= λ new_diff.
    if c.diff == new_diff
    then ok c
    else let moved = record c { diff = new_diff } in
      ok (if c.rpc_version2 then moved else send (set_difficulty new_diff) moved)

unfoldable pub authorize : Tuner → ℕ → ℕ → Client → Run Client
unfolding update_diff
authorize tuner rate now c = update_diff tuner rate c >>= λ c'.
    Window.add now 0 c'.share_window >>= λ w. ok (record c' { registered = true; share_window = w })

-- strings.SplitN(input, ".", 2): the text before the first dot, and the text behind it, if any.
unfoldable split_dot : Bytes → Bytes × Bytes
split_dot [] = ([], [])
split_dot (c ∷ input) =
    let rest = split_dot input in if c == b'.' then ([], input) else (c ∷ rest.0, rest.1)

-- The user name and the worker name.
unfoldable pub parse_user : Bytes → Bytes × Bytes
unfolding split_dot
parse_user input = split_dot (take 65 input)
