-- ===== src/Server/Shares/Listen.antt =====
-- cmd/ngstratum/stratum.go, ListenShares: the statements of a share, and the loop.
use ngpool.Prelude.{
  ℕ, ◌+◌, ◌*◌, ◌/◌, ltb, leb, Bool, true, false, ◌&&◌, ◌||◌, not, String, Option, none, some, List,
  [], ◌∷◌, ◌++◌, take, length, if◌then◌else◌,
}
use ngpool.Prelude.Int.{pos}
use ngpool.Prelude.Map.{Map, lookup, insert, nat_eq, bytes_eq, string_eq, ◌==◌}
use ngpool.Prelude.Run.{Run, ok, panic, ◌>>=◌}
use ngpool.Bytes.{Bytes}
use ngpool.Job.{BlockSolve}
use ngpool.Client.{Share}
use ngpool.Payout.{Utxo}
use ngpool.Server.Shares.{
  minute_key_eq, BlockInsert, MinuteKey, MinuteShare, Server, ShareRow, Tables, has_cast,
  insert_block, insert_utxo,
}

-- The blocks to submit, to the broadcasters by their currencies: a missing one is a nil interface.
abbrev pub submit_blocks :
    List String
    → Map String BlockSolve
    → List (String × BlockSolve)
    → Run (List (String × BlockSolve))
submit_blocks casts [] submitted = ok submitted
submit_blocks casts ((code, block) ∷ blocks) submitted =
    if has_cast code casts
    then submit_blocks casts blocks (submitted ++ (code, block) ∷ [])
    else panic

-- getBlockHash. Taken to panic on a block without a whole header, whatever its capacity.
unfoldable pub get_block_hash : (Bytes → Bytes) → BlockSolve → Run Bytes
get_block_hash sha256d block =
    if leb 80 (length block.solved) then ok (sha256d (take 80 block.solved)) else panic

-- The first column of a share's minutes.
abbrev pub sharechain_cat : Bytes
sharechain_cat = b's' ∷ b'h' ∷ b'a' ∷ b'r' ∷ b'e' ∷ b'c' ∷ b'h' ∷ b'a' ∷ b'i' ∷ b'n' ∷ []

abbrev pub currency_cat : Bytes
currency_cat = b'c' ∷ b'u' ∷ b'r' ∷ b'r' ∷ b'e' ∷ b'n' ∷ b'c' ∷ b'y' ∷ []

-- share.time.Truncate(time.Minute), of nanoseconds.
abbrev pub truncate : ℕ → ℕ
truncate time = time / 60000000000 * 60000000000

abbrev pub currency_keys : List Bytes → ℕ → List MinuteKey
currency_keys [] mt = []
currency_keys (c ∷ currencies) mt =
    record { cat = currency_cat; key = c; minute = mt } ∷ currency_keys currencies mt

-- The keys of the statement's rows.
abbrev pub share_keys : Server → Share → List MinuteKey
share_keys n share =
    let mt = truncate share.time in
    record { cat = share.username; key = share.worker; minute = mt }
    ∷ record { cat = sharechain_cat; key = n.chain_name; minute = mt }
    ∷ currency_keys n.currencies mt

abbrev pub has_minute_key : MinuteKey → List MinuteKey → Bool
has_minute_key k [] = false
has_minute_key k (j ∷ keys) = (j == k) || has_minute_key k keys

abbrev pub are_distinct : List MinuteKey → Bool
are_distinct [] = true
are_distinct (k ∷ keys) = not (has_minute_key k keys) && are_distinct keys

-- One row: ON CONFLICT it counts one more share, in an integer of 32 bits.
abbrev pub upsert :
    Server → ℕ → MinuteKey → Map MinuteKey MinuteShare → Option (Map MinuteKey MinuteShare)
upsert n difficulty k rows = elim (lookup k rows) [
  | none ↦ some (
      insert k
        (record {
          difficulty = difficulty;
          shares = 1;
          sharechain = n.chain_name;
          stratum = n.stratum_name;
        })
        rows)
  | some row ↦
      if ltb (row.shares + 1) 2147483648
      then some (
          insert k
            (record row { difficulty = row.difficulty + difficulty; shares = row.shares + 1 }) rows)
      else none
]

unfoldable pub upsert_all :
    Server → ℕ → List MinuteKey → Map MinuteKey MinuteShare → Option (Map MinuteKey MinuteShare)
unfolding lookup insert
upsert_all n difficulty [] rows = some rows
upsert_all n difficulty (k ∷ keys) rows = elim (upsert n difficulty k rows) [
  | none ↦ none
  | some rows' ↦ upsert_all n difficulty keys rows'
]

-- The whole statement: ON CONFLICT cannot change a row twice, and a statement that fails changes
-- nothing.
unfoldable pub save_minute_shares :
    Server → Share → Map MinuteKey MinuteShare → Map MinuteKey MinuteShare
unfolding upsert_all
save_minute_shares n share rows =
    if are_distinct (share_keys n share)
    then elim (upsert_all n share.difficulty (share_keys n share) rows) [
      | none ↦ rows
      | some rows' ↦ rows'
    ]
    else rows

abbrev pub coinbase_row : String → BlockSolve → Utxo
coinbase_row code block = record {
  hash = block.coinbase_hash;
  vout = 0;
  currency = code;
  address = block.subsidy_address;
  amount = pos block.subsidy;
  spent = false;
  spendable = false;
}

abbrev pub block_row : Share → String → BlockSolve → Bytes → BlockInsert
block_row share code block hash = record {
  height = block.height;
  currency = code;
  powalgo = block.powalgo;
  hash = hash;
  powhash = block.powhash;
  subsidy = block.subsidy;
  mined_at = share.time;
  mined_by = share.username;
  target = block.target;
  coinbase_hash = block.coinbase_hash;
}

abbrev pub share_row : Server → Share → ShareRow
share_row n share = record {
  username = share.username;
  difficulty = share.difficulty;
  mined_at = share.time;
  sharechain = n.chain_name;
  currencies = share.currencies;
}

module _ (sha256d : Bytes → Bytes) (n : Server) where
  -- A UTXO and a block for each solve.
  unfoldable pub save_blocks : Share → List (String × BlockSolve) → Tables → Run Tables
  unfolding get_block_hash
  save_blocks share [] t = ok t
  save_blocks share ((code, block) ∷ blocks) t = get_block_hash sha256d block >>= λ hash.
      save_blocks share blocks
        (insert_block (block_row share code block hash) (insert_utxo (coinbase_row code block) t))

  -- One round of ListenShares, with the broadcasters that there are: what it submits, and the
  -- tables after it.
  unfoldable pub on_share : List String → Share → Tables → Run (List (String × BlockSolve) × Tables)
  unfolding save_minute_shares
  on_share casts share t = submit_blocks casts share.blocks [] >>= λ submitted.
      save_blocks share share.blocks t >>= λ t'. ok (
        submitted,
        record t' {
          minute_shares = save_minute_shares n share t'.minute_shares;
          shares = share_row n share ∷ t'.shares;
        },
      )

  unfoldable pub listen_shares : List String → List Share → Tables → Run Tables
  unfolding on_share
  listen_shares casts [] t = ok t
  listen_shares casts (share ∷ shares) t =
      on_share casts share t >>= λ (done : List (String × BlockSolve) × Tables).
      listen_shares casts shares done.1
