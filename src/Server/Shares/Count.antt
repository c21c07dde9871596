-- ===== src/Server/Shares/Count.antt =====
-- cmd/ngstratum/stratum.go, ListenShares: the rows of minute_share count the shares.
use ngpool.Prelude.{
  ℕ, ◌+◌, ◌≤◌, ◌<◌, ◌≡◌, refl, sym, ap, ◌∙◌, ltb, true, false, ◌&&◌, not, String, Option, none,
  some, List, [], ◌∷◌, ◌++◌, leb, take, length, if◌then◌else◌, Bool-cases, Option-cases, inl, inr,
  arith, All,
}
use mathlib.Core.Path.{subst}
use ngpool.Prelude.Map.{Map, lookup, insert, lookup-insert, beq_refl, bytes_eq, nat_eq, ◌==◌}
use ngpool.Prelude.Run.{ok}
use ngpool.Bytes.{Bytes}
use ngpool.Job.{BlockSolve}
use ngpool.Client.{Share}
use ngpool.Payout.{Utxo}
use ngpool.Server.Shares.Keys.{
  IsNameList, IsMiner, is_of, shares_of, has-share_keys, share_keys-distinct,
}
use ngpool.Server.Shares.{
  MinuteKey, minute_key_eq, MinuteShare, Tables, Server, has_cast, insert_block, insert_utxo,
  BlockInsert, has_block, has_utxo,
}
use ngpool.Server.Shares.Listen.{
  share_keys, has_minute_key, are_distinct, upsert, upsert_all, save_minute_shares, save_blocks,
  get_block_hash, submit_blocks, coinbase_row, block_row, on_share, listen_shares, share_row,
}

-- What a row counts; a missing one counts none.
abbrev pub counted : Option MinuteShare → ℕ
counted none = 0
counted (some row) = row.shares

abbrev pub row_count : MinuteKey → Map MinuteKey MinuteShare → ℕ
row_count k rows = counted (lookup k rows)

-- How often a key is among those of a statement.
abbrev times : MinuteKey → List MinuteKey → ℕ
times k [] = 0
times k (j ∷ keys) = (if j == k then 1 else 0) + times k keys

insert-row_count :
    (k j : MinuteKey) (row : MinuteShare) (rows : Map MinuteKey MinuteShare)
    → row_count k rows + 1 ≡ row.shares
    → row_count j (insert k row rows) ≡ row_count j rows + (if k == j then 1 else 0)
insert-row_count k j row rows one_more =
    rw (lookup-insert k j row rows) (elim (Bool-cases (k == j)) [
      | inl same ↦
          let e : k ≡ j = (minute_key_eq.beq_iff k j).0 same in
          rw same (sym one_more ∙ ap (λ i. row_count i rows + 1) e)
      | inr apart ↦ rw apart (omega arith)
    ])

upsert-row_count :
    (n : Server) (d : ℕ) (k : MinuteKey) (rows : Map MinuteKey MinuteShare)
    → row_count k rows + 1 < 2147483648
    → (rows' : Map MinuteKey MinuteShare) × (upsert n d k rows ≡ some rows')
      × ((j : MinuteKey) → row_count j rows' ≡ row_count j rows + (if k == j then 1 else 0))
upsert-row_count n d k rows small = elim (Option-cases (lookup k rows)) [
  | inl missing ↦
      let row : MinuteShare = record {
        difficulty = d;
        shares = 1;
        sharechain = n.chain_name;
        stratum = n.stratum_name;
      } in
      (
        insert k row rows,
        rw (missing, upsert) refl,
        λ j. insert-row_count k j row rows (ap (λ o. counted o + 1) missing),
      )
  | inr (old, found) ↦
      let before : row_count k rows ≡ old.shares = ap counted found in
      let row : MinuteShare = record old {
        difficulty = old.difficulty + d;
        shares = old.shares + 1;
      } in
      let fits : ltb (old.shares + 1) 2147483648 ≡ true = ground (arith, small, before) in
      (
        insert k row rows,
        rw (found, fits, upsert) refl,
        λ j. insert-row_count k j row rows (ap (λ c. c + 1) before),
      )
]

upsert_all-row_count :
    (n : Server) (d : ℕ) (keys : List MinuteKey) (rows : Map MinuteKey MinuteShare)
    → ((j : MinuteKey) → row_count j rows + times j keys < 2147483648)
    → (rows' : Map MinuteKey MinuteShare) × (upsert_all n d keys rows ≡ some rows')
      × ((j : MinuteKey) → row_count j rows' ≡ row_count j rows + times j keys)
unfolding upsert_all
upsert_all-row_count n d [] rows small = (rows, refl, λ j. omega arith)
upsert_all-row_count n d (k ∷ keys) rows small =
    let here : row_count k rows + 1 < 2147483648 =
      let all : row_count k rows + ((if k == k then 1 else 0) + times k keys) < 2147483648 =
        small k in
      let all' : row_count k rows + (1 + times k keys) < 2147483648 = rw (beq_refl k) at all in
      omega (arith, all') in
    let (rows1, done, counts1) = upsert-row_count n d k rows here in
    let (rows2, rest, counts2) =
      upsert_all-row_count n d keys rows1 (λ j. omega (arith, small j, counts1 j)) in
    (rows2, rw (done, upsert_all) rest, λ j. omega (arith, counts1 j, counts2 j))

distinct-times :
    (keys : List MinuteKey)
    → are_distinct keys ≡ true
    → (j : MinuteKey) → times j keys ≡ (if has_minute_key j keys then 1 else 0)
distinct-times [] distinct j = refl
distinct-times (k ∷ keys) distinct j =
    let ih = distinct-times keys (ground (arith, distinct)) j in
    let new : has_minute_key k keys ≡ false = ground (arith, distinct) in
    elim (Bool-cases (k == j)) [
      | inl same ↦
          let e : k ≡ j = (minute_key_eq.beq_iff k j).0 same in
          let none_later : has_minute_key j keys ≡ false =
            subst (λ i. has_minute_key i keys ≡ false) e new in
          let ih' : times j keys ≡ 0 = rw none_later at ih in rw same (omega (arith, ih'))
      | inr apart ↦ rw apart (omega (arith, ih))
    ]

save_minute_shares-row_count :
    (n : Server) (share : Share) (rows : Map MinuteKey MinuteShare)
    → are_distinct (share_keys n share) ≡ true
    → ((j : MinuteKey) → row_count j rows + 1 < 2147483648)
    → (j : MinuteKey)
    → row_count j (save_minute_shares n share rows)
      ≡ row_count j rows + (if has_minute_key j (share_keys n share) then 1 else 0)
unfolding save_minute_shares
save_minute_shares-row_count n share rows distinct small j =
    let keys = share_keys n share in
    let once : (i : MinuteKey) → times i keys ≤ 1 =
      λ i. let e = distinct-times keys distinct i in ground (arith, e) in
    let (rows', done, counts) =
      upsert_all-row_count n share.difficulty keys rows (λ i. omega (arith, small i, once i)) in
    rw (distinct, done, save_minute_shares)
      (counts j ∙ ap (λ c. row_count j rows + c) (distinct-times keys distinct j))

-- A block that has a broadcaster and a whole header.
abbrev IsSendable : List String → String × BlockSolve → Type 0
IsSendable casts entry = (has_cast entry.0 casts ≡ true) × (leb 80 (length entry.1.solved) ≡ true)

submit_blocks-ok :
    (casts : List String) (blocks done : List (String × BlockSolve))
    → All (IsSendable casts) blocks
    → (all : List (String × BlockSolve)) × (submit_blocks casts blocks done ≡ ok all)
submit_blocks-ok casts [] done h = (done, refl)
submit_blocks-ok casts (b ∷ blocks) done h =
    let (all, e) = submit_blocks-ok casts blocks (done ++ b ∷ []) h.1 in
    (all, rw (h.0.0, submit_blocks) e)

insert-minute_shares :
    (u : Utxo) (b : BlockInsert) (t : Tables)
    → (insert_block b (insert_utxo u t)).minute_shares ≡ t.minute_shares
insert-minute_shares u b t = insert_block-kept (insert_utxo u t) ∙ insert_utxo-kept
  where
    insert_block-kept : (s : Tables) → (insert_block b s).minute_shares ≡ s.minute_shares
    insert_block-kept s =
        elim (Bool-cases (not (has_block b.hash s.blocks) && has_utxo b.coinbase_hash s.utxos)) [
          | inl new ↦ rw (new, insert_block) refl
          | inr old ↦ rw (old, insert_block) refl
        ]

    insert_utxo-kept : (insert_utxo u t).minute_shares ≡ t.minute_shares
    insert_utxo-kept = elim (Bool-cases (has_utxo u.hash t.utxos)) [
      | inl old ↦ rw (old, insert_utxo) refl
      | inr new ↦ rw (new, insert_utxo) refl
    ]

save_blocks-ok :
    (sha256d : Bytes → Bytes) (n : Server) (casts : List String) (share : Share)
    (blocks : List (String × BlockSolve)) (t : Tables)
    → All (IsSendable casts) blocks
    → (t' : Tables) × (save_blocks sha256d n share blocks t ≡ ok t')
      × (t'.minute_shares ≡ t.minute_shares)
unfolding save_blocks get_block_hash
save_blocks-ok sha256d n casts share [] t h = (t, refl, refl)
save_blocks-ok sha256d n casts share (b ∷ blocks) t h =
    let hash = sha256d (take 80 b.1.solved) in
    let t1 = insert_block (block_row share b.0 b.1 hash) (insert_utxo (coinbase_row b.0 b.1) t) in
    let (t', e, same) = save_blocks-ok sha256d n casts share blocks t1 h.1 in
    (
      t',
      rw (h.0.1, get_block_hash, save_blocks) e,
      same ∙ insert-minute_shares (coinbase_row b.0 b.1) (block_row share b.0 b.1 hash) t,
    )

-- Of a list of shares, each can be saved.
abbrev IsSavable : List String → Share → Type 0
IsSavable casts share = IsMiner share × All (IsSendable casts) share.blocks

listen_shares-from :
    (sha256d : Bytes → Bytes) (n : Server) (casts : List String) (shares : List Share) (t : Tables)
    → IsNameList n.currencies
    → All (IsSavable casts) shares
    → ((k : MinuteKey) → row_count k t.minute_shares + length shares < 2147483648)
    → (t' : Tables) × (listen_shares sha256d n casts shares t ≡ ok t')
      × ((k : MinuteKey)
          → row_count k t'.minute_shares ≡ row_count k t.minute_shares + shares_of n k shares)
unfolding listen_shares on_share
listen_shares-from sha256d n casts [] t names savable small = (t, refl, λ k. omega arith)
listen_shares-from sha256d n casts (share ∷ shares) t names savable small =
    let (submitted, e1) = submit_blocks-ok casts share.blocks [] savable.0.1 in
    let (t1, e2, same) = save_blocks-ok sha256d n casts share share.blocks t savable.0.1 in
    let before : (k : MinuteKey) → row_count k t1.minute_shares ≡ row_count k t.minute_shares =
      λ k. ap (row_count k) same in
    let saved : (k : MinuteKey)
        → row_count k (save_minute_shares n share t1.minute_shares)
          ≡ row_count k t1.minute_shares + (if is_of n k share then 1 else 0) =
      λ k.
        save_minute_shares-row_count n share t1.minute_shares
          (share_keys-distinct n share names savable.0.0) (λ j. omega (arith, small j, before j)) k
        ∙ ap (λ b. row_count k t1.minute_shares + (if b then 1 else 0))
            (has-share_keys n share k) in
    let once : (k : MinuteKey) → (if is_of n k share then 1 else 0) ≤ 1 = λ k.
      elim (Bool-cases (is_of n k share)) [
        | inl yes_of ↦ rw yes_of (omega arith)
        | inr no_of ↦ rw no_of (omega arith)
      ] in
    let t2 : Tables = record t1 {
      minute_shares = save_minute_shares n share t1.minute_shares;
      shares = share_row n share ∷ t1.shares;
    } in
    let (t3, e3, counts) =
      listen_shares-from sha256d n casts shares t2 names savable.1
        (λ k. omega (arith, small k, before k, saved k, once k)) in
    (t3, rw (e1, e2, on_share, listen_shares) e3, λ k. omega (arith, counts k, before k, saved k))

-- The tables before any share.
abbrev pub no_tables : Tables
no_tables = record { utxos = []; blocks = []; minute_shares = []; shares = [] }

-- When the miners are not named like a category, the currencies are different, every solve has a
-- broadcaster and a whole header, and there are fewer than 2^31 shares: ListenShares takes them all,
-- and then every row of minute_share counts just the shares that are for it: of its minute and
-- either of its miner and worker, of the share chain or of its currency.
pub listen_shares-row_count :
    (sha256d : Bytes → Bytes) (n : Server) (casts : List String) (shares : List Share)
    → IsNameList n.currencies
    → All (IsSavable casts) shares
    → length shares < 2147483648
    → (t : Tables) × (listen_shares sha256d n casts shares no_tables ≡ ok t)
      × ((k : MinuteKey) → row_count k t.minute_shares ≡ shares_of n k shares)
unfolding lookup
listen_shares-row_count sha256d n casts shares names savable few =
    let (t, e, counts) =
      listen_shares-from sha256d n casts shares no_tables names savable (λ k. omega (arith, few)) in
    (t, e, λ k. omega (arith, counts k))
