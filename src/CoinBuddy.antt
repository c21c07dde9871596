-- ===== src/CoinBuddy.antt =====
-- cmd/ngcoinserver/coinbuddy.go: the newest block template of a coin server and who is told of it.
-- The node's answers to JSON-RPC calls are inputs, and encoding/json is a parameter.
pub mod Updates
pub mod Handlers
use ngpool.Prelude.{
  ℕ, ltb, Bool, true, false, String, Option, none, some, List, [], ◌∷◌, ◌++◌, if◌then◌else◌,
}
use ngpool.Prelude.Map.{Map, lookup, string_eq, ◌==◌}
use ngpool.Prelude.Int.{ℤ}
use ngpool.Prelude.Run.{Run, ok, err, panic, or_panic, or_err, ◌>>=◌}
use ngpool.Bytes.{Bytes}

-- What RawRequest gives: *btcjson.RPCError with its code and message, or another error.
pub data Answer : Type 0 where
  result : Bytes → Answer
  rpc_error : ℤ → String → Answer
  other_error : Answer

-- The values of JSON that the code passes on unread are their text.
pub record Json : Type 0 where
  pub unmarshal_height : Bytes → Option ℕ
  pub unmarshal_object : Bytes → Option (Map String Bytes)
  pub marshal : Map String Bytes → Option Bytes
  pub null : Bytes

pub record CoinBuddy : Type 0 where
  pub last_block : Option Bytes
  pub last_block_height : ℕ
  pub template_extras : Bytes

-- rawTemplate[:len(rawTemplate)-1]
abbrev pub but_last : Bytes → Option Bytes
but_last [] = none
but_last (x ∷ []) = some []
but_last (x ∷ y ∷ rest) = elim (but_last (y ∷ rest)) [ none ↦ none | some front ↦ some (x ∷ front) ]

-- Under the lock: what is to be transmitted after it, with its height.
abbrev pub commit : ℕ → Bytes → CoinBuddy → CoinBuddy × Option (ℕ × Bytes)
commit height raw c =
    if ltb c.last_block_height height
    then (record c { last_block = some raw; last_block_height = height }, some (height, raw))
    else (c, none)

-- The `,"extras":` and what follows it.
abbrev extras_key : Bytes
extras_key = b',' ∷ b'"' ∷ b'e' ∷ b'x' ∷ b't' ∷ b'r' ∷ b'a' ∷ b's' ∷ b'"' ∷ b':' ∷ []

module _ (json : Json) where
  -- UpdateBlock until its Submit. An error leaves everything as it is.
  unfoldable pub update_block : Answer → CoinBuddy → Run (CoinBuddy × Option (ℕ × Bytes))
  update_block other_error c = err "request"
  update_block (rpc_error code message) c = err "request"
  update_block (result raw) c =
      or_err "Malformed template" (json.unmarshal_height raw) >>= λ height.
      or_panic (but_last raw) >>= λ front. ok (commit height (front ++ c.template_extras) c)

  abbrev chain_id : Option Bytes → Bytes
  chain_id none = json.null
  chain_id (some value) = value

  -- What is marshalled; an error of os.Exit.
  abbrev extras_of : String → Answer → Run (Map String Bytes)
  extras_of template_type answer =
      if template_type == "getblocktemplate_aux"
      then elim answer [
        | result raw ↦
            or_err "Failed to deserialize getauxblock" (json.unmarshal_object raw) >>= λ aux_work.
            ok (("chainid", chain_id (lookup "chainid" aux_work)) ∷ [])
        | _ ↦ err "Failed to run getauxblock"
      ]
      else ok []

  -- generateTemplateExtras, with the answer to getauxblock.
  unfoldable generate_template_extras : String → Answer → CoinBuddy → Run CoinBuddy
  unfolding lookup
  generate_template_extras template_type answer c = extras_of template_type answer >>= λ extras.
      or_err "Error serializing templateExtras" (json.marshal extras) >>= λ serialized.
      ok (record c { template_extras = extras_key ++ serialized ++ b'}' ∷ [] })
