-- ===== src/CoinBuddy/Handlers.antt =====
-- cmd/ngcoinserver/coinbuddy.go: the HTTP handlers, the status and the first template. What a call
-- of UpdateBlock submits is told with the state that it leaves.
use ngpool.Prelude.{ℕ, Bool, true, false, String, Option, none, some, List, [], ◌∷◌, if◌then◌else◌}
use ngpool.Prelude.Int.{ℤ}
use ngpool.Prelude.Map.{string_eq, ◌==◌}
use ngpool.Prelude.Run.{Run, ok, err, panic, out_of_fuel, ◌>>=◌}
use ngpool.Bytes.{Bytes}
use ngpool.CoinBuddy.{Answer, result, rpc_error, other_error, Json, CoinBuddy, update_block}

-- The state, what was submitted, and whether there was an error.
pub record Update : Type 0 where
  pub buddy : CoinBuddy
  pub sent : Option (ℕ × Bytes)
  pub is_err : Bool

-- The request of the RPC proxy, and its answer: the result, or a code and a message.
pub record RpcReq : Type 0 where
  pub method : String
  pub params : List Bytes

pub data RpcReply : Type 0 where
  success : Bytes → RpcReply
  failure : ℤ → String → RpcReply
  proxy_error : RpcReply

-- What a panic leaves of the goroutine is not said: net/http recovers it.
module _ (json : Json) where
  abbrev settle : CoinBuddy → Run (CoinBuddy × Option (ℕ × Bytes)) → Run Update
  settle c (ok (c', sent)) = ok (record { buddy = c'; sent = sent; is_err = false })
  settle c (err message) = ok (record { buddy = c; sent = none; is_err = true })
  settle c panic = panic
  settle c out_of_fuel = out_of_fuel

  -- The handler of /rpc, with the node's answer to the request and to getblocktemplate.
  unfoldable pub rpc : RpcReq → Answer → Answer → CoinBuddy → Run (RpcReply × Update)
  unfolding update_block
  rpc req (rpc_error code message) template c =
      ok (failure code message, record { buddy = c; sent = none; is_err = false })
  rpc req other_error template c =
      ok (proxy_error, record { buddy = c; sent = none; is_err = false })
  rpc req (result res) template c =
      if req.method == "submitblock"
      then (settle c (update_block json template c) >>= λ u. ok (success res, u))
      else ok (success res, record { buddy = c; sent = none; is_err = false })

  -- The handler of /notif: 417 or 200.
  unfoldable notif : Answer → CoinBuddy → Run (ℕ × Update)
  unfolding update_block
  notif template c =
      settle c (update_block json template c) >>= λ u. ok (if u.is_err then 417 else 200, u)

  -- The loop for the first template, over the node's answers, one in five seconds, until there is a
  -- last block. It tells what it submitted.
  unfoldable first_template : List Answer → CoinBuddy → Run (CoinBuddy × List (ℕ × Bytes))
  unfolding update_block
  first_template [] c = out_of_fuel
  first_template (answer ∷ answers) c = settle c (update_block json answer c) >>= λ u.
      elim u.buddy.last_block [
        | some block ↦ ok (u.buddy, elim u.sent [ none ↦ [] | some entry ↦ entry ∷ [] ])
        | none ↦ first_template answers u.buddy
      ]

-- The body of the SSE stream for a new listener, before what is submitted: the last block, if any.
unfoldable on_connect : CoinBuddy → List Bytes
on_connect c = elim c.last_block [ none ↦ [] | some block ↦ block ∷ [] ]

-- updateStatus's update: both answers must be read, or nothing is pushed.
module _ {ℓ κ} {A : Type ℓ} {B : Type κ} (unmarshal_chain : Bytes → Option A)
    (unmarshal_network : Bytes → Option B) where
  unfoldable update_status : Answer → Answer → Option (A × B)
  update_status (result chain) (result network) = elim (unmarshal_chain chain) [
    | none ↦ none
    | some chain_info ↦ elim (unmarshal_network network) [
      | none ↦ none
      | some network_info ↦ some (chain_info, network_info)
    ]
  ]
  update_status _ _ = none
