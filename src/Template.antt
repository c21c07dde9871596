-- ===== src/Template.antt =====
-- cmd/ngstratum/bt.go: a coinserver's block template and the coinbase made from it.
pub mod Coinbase
use ngpool.Prelude.{
  ℕ, ◌≡◌, Bool, true, false, Option, none, some, List, [], ◌∷◌, ◌++◌, ◌==◌, if◌then◌else◌, length,
  map,
}
use ngpool.Prelude.Int.{ℤ}
use ngpool.Prelude.Run.{Run, ok, err, panic, out_of_fuel, ◌>>=◌, or_panic, or_err}
use ngpool.Bytes.{Bytes, reverse_bytes, be32, hex_decode, hex_bytes, split}
use ngpool.Config.{ChainConfig}
use ngpool.Merkle.{merkle_root, merkle_branch}

-- The libraries that block templates and jobs rest on: sha256d, and btcd's scripts, transactions,
-- hashes and compact targets. `none` is a returned error.
pub record Deps : Type 0 where
  pub sha256d : Bytes → Bytes
  pub compact_to_big : ℕ → ℤ
  pub pay_to_addr_script : ChainConfig → Option Bytes
  -- The script that pushes a height and then some data.
  pub coinbase_script : ℕ → Bytes → Option Bytes
  -- The serialised transaction with that input script and one output.
  pub serialize_coinbase : Bytes → ℕ → Bytes → Bytes
  pub new_hash : Bytes → Option Bytes
  pub hash_to_big : Bytes → ℕ
  pub write_var_int : ℕ → Bytes
  -- The bytes between the length and the capacity of a slice that was appended to.
  pub spare : Bytes → Bytes

-- Hexadecimal fields are byte strings. The fields that the program never reads are left out.
pub record GbtTransaction : Type 0 where
  pub raw : Bytes
  pub tx_id : Bytes
  pub hash : Bytes

abbrev get_tx_id : GbtTransaction → Bytes
get_tx_id t = elim t.tx_id [ [] ↦ t.hash | c ∷ cs ↦ t.tx_id ]

-- The coinserver's numbers are not negative.
pub record BlockTemplate : Type 0 where
  pub version : ℕ
  pub previous_block_hash : Bytes
  pub transactions : List GbtTransaction
  pub coinbase_value : ℕ
  pub cur_time : ℕ
  pub bits : Bytes
  pub height : ℕ
  pub chain_id : ℕ

-- The ids in hash byte order. An invalid one is only logged, and what was decoded of it is used.
abbrev tx_hashes : BlockTemplate → List Bytes
tx_hashes t = map (λ txn. reverse_bytes (hex_decode (get_tx_id txn)).0) t.transactions

abbrev pub extra_nonce_magic : Bytes
extra_nonce_magic = 0xdb ∷ 0xa9 ∷ 0xf8 ∷ 0x6a ∷ 0xfc ∷ 0xc7 ∷ 0x27 ∷ 0x59 ∷ []

abbrev two_parts : List Bytes → Run (Bytes × Bytes)
two_parts (a ∷ b ∷ []) = ok (a, b)
two_parts _ = err "Magic value collision!"

module _ (deps : Deps) where
  -- Reading four bytes of a shorter text panics.
  unfoldable pub get_target : BlockTemplate → Run ℤ
  get_target t = do
    bits ← or_err "hex" (hex_bytes t.bits)
    bits_uint ← or_panic (be32 bits)
    ok (deps.compact_to_big bits_uint)

  unfoldable pub template_branch : BlockTemplate → Run (List Bytes)
  template_branch t = merkle_branch deps.sha256d (tx_hashes t)

  unfoldable pub template_root : BlockTemplate → Bytes → Run Bytes
  template_root t coinbase_hash = merkle_root deps.sha256d (coinbase_hash ∷ tx_hashes t)

  unfoldable pub create_coinbase : BlockTemplate → ChainConfig → Bytes → Run Bytes
  create_coinbase t config extra = do
    pk_script ← or_err "PayToAddrScript" (deps.pay_to_addr_script config)
    cb_script ← or_err "ScriptBuilder" (deps.coinbase_script t.height extra)
    ok (deps.serialize_coinbase cb_script t.coinbase_value pk_script)

  unfoldable pub create_coinbase_split : BlockTemplate → ChainConfig → Bytes → Run (Bytes × Bytes)
  unfolding create_coinbase
  create_coinbase_split t config extra = do
    tx_raw ← create_coinbase t config (extra ++ extra_nonce_magic)
    two_parts (split tx_raw extra_nonce_magic)
