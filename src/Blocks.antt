-- ===== src/Blocks.antt =====
-- cmd/ngweb/confirmblocks.go: immature blocks become mature or orphans, and a mature block's
-- coinbase can be spent.
pub mod Status
use ngpool.Prelude.{
  ℕ, zero, suc, ◌+◌, ◌≡◌, Bool, true, false, ◌&&◌, not, String, Option, none, some, List, [], ◌∷◌,
  if◌then◌else◌, map,
}
use ngpool.Prelude.Int.{ℤ, pos, negsuc, ◌-ℤ◌, ltb_ℤ}
use ngpool.Prelude.Map.{Map, lookup, insert, Eq, string_eq, ◌==◌}
use ngpool.Config.{ChainConfig}
use ngpool.Credits.{select, BlockRow, BlockStatus, immature, orphan, mature}

-- A UTXO's hash, and whether it can be spent.
pub record CoinbaseUtxo : Type 0 where
  pub hash : String
  pub spendable : Bool

pub record Ledger : Type 0 where
  pub blocks : List BlockRow
  pub utxos : List CoinbaseUtxo

-- A coin server: GetBlockVerbose of a hash, as its confirmations and height, and GetBlockCount. A
-- hash that does not decode, or a call that fails, is `none`.
pub record CoinServer : Type 0 where
  pub get_block_verbose : String → Option (ℤ × ℤ)
  pub get_block_count : Option ℤ

-- The status that a block gets, where it gets one.
unfoldable pub new_status : ℤ → ℤ → ℤ → ℤ → Option BlockStatus
new_status required confirmations height block_height =
    if not (ltb_ℤ confirmations required)
    then some mature
    else if not (ltb_ℤ confirmations (negsuc 0))
        && not (ltb_ℤ (negsuc 0) confirmations)
        && ltb_ℤ required (height -ℤ block_height)
    then some orphan
    else none

abbrev pub set_status : BlockStatus → String → List BlockRow → List BlockRow
set_status s hash [] = []
set_status s hash (b ∷ blocks) =
    (if b.hash == hash then record b { status = s } else b) ∷ set_status s hash blocks

abbrev pub set_spendable : String → List CoinbaseUtxo → List CoinbaseUtxo
set_spendable hash [] = []
set_spendable hash (u ∷ utxos) =
    (if u.hash == hash then record u { spendable = true } else u) ∷ set_spendable hash utxos

-- The database transaction.
unfoldable pub apply_status : BlockRow → BlockStatus → Ledger → Ledger
apply_status b mature l = record {
  blocks = set_status mature b.hash l.blocks;
  utxos = set_spendable b.coinbase_hash l.utxos;
}
apply_status b s l = record l { blocks = set_status s b.hash l.blocks }

abbrev apply_new : BlockRow → Option BlockStatus → Ledger → Ledger
apply_new b none l = l
apply_new b (some s) l = apply_status b s l

-- The count of a currency is asked for once.
abbrev chain_height : CoinServer → String → Map String ℤ → Option ℤ
chain_height server currency heights = elim (lookup currency heights) [
  | none ↦ server.get_block_count
  | some count ↦ some count
]

-- One block's turn: a missing configuration, server or answer skips it.
unfoldable pub confirm_block :
    Map String ChainConfig
    → Map String CoinServer
    → BlockRow
    → Map String ℤ
    → Ledger
    → Map String ℤ × Ledger
unfolding new_status apply_status
confirm_block configs servers b heights l = elim (lookup b.currency configs) [
  | none ↦ (heights, l)
  | some config ↦ elim (lookup b.currency servers) [
    | none ↦ (heights, l)
    | some server ↦ elim (server.get_block_verbose b.hash) [
      | none ↦ (heights, l)
      | some (confirmations, height) ↦ elim (chain_height server b.currency heights) [
        | none ↦ (heights, l)
        | some count ↦ (
          insert b.currency count heights,
          apply_new b (new_status (pos config.block_mature_confirms) confirmations count height) l,
        )
      ]
    ]
  ]
]

-- ConfirmBlocks' loop over the blocks that its query found immature.
unfoldable pub confirm_loop :
    Map String ChainConfig → Map String CoinServer → List BlockRow → Map String ℤ → Ledger → Ledger
unfolding confirm_block
confirm_loop configs servers [] heights l = l
confirm_loop configs servers (b ∷ blocks) heights l =
    let r = confirm_block configs servers b heights l in confirm_loop configs servers blocks r.0 r.1

abbrev is_immature : BlockStatus → Bool
is_immature immature = true
is_immature _ = false

-- ConfirmBlocks, up to its call of GenerateCredits.
unfoldable confirm_blocks : Map String ChainConfig → Map String CoinServer → Ledger → Ledger
unfolding confirm_loop select
confirm_blocks configs servers l =
    confirm_loop configs servers (select (λ (b : BlockRow). is_immature b.status) l.blocks) [] l
