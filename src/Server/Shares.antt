-- ===== src/Server/Shares.antt =====
-- cmd/ngstratum/stratum.go, ListenShares: what a share leaves in the database (sql/tables.sql).
-- Hashes and names are bytes, not yet in hexadecimal. Each statement stands alone, and fails only on
-- the constraints and the width of its table.
pub mod Listen
pub mod Keys
pub mod Count
use ngpool.Prelude.{
  ℕ, suc, ◌+◌, ◌*◌, ◌/◌, ◌^◌, ltb, leb, Bool, true, false, ◌&&◌, ◌||◌, not, String, Option, none,
  some, List, [], ◌∷◌, ◌++◌, map, take, length, ◌≡◌, refl, ◌↔◌, arith, if◌then◌else◌,
}
use mathlib.Core.Path.{subst}
use ngpool.Prelude.Int.{pos}
use ngpool.Prelude.Int.{ℤ}
use ngpool.Prelude.Map.{
  Map, Eq, lookup, insert, beq_refl, bytes_beq_iff, nat_eq, bytes_eq, string_eq, ◌==◌,
}
use ngpool.Prelude.Run.{Run, ok, panic, ◌>>=◌}
use ngpool.Bytes.{Bytes}
use ngpool.Job.{BlockSolve}
use ngpool.Client.{Share}
use ngpool.Payout.{Utxo}

-- The primary key of minute_share: cat, key and minute.
pub record MinuteKey : Type 0 where
  pub cat : Bytes
  pub key : Bytes
  pub minute : ℕ

abbrev pub key_beq : MinuteKey → MinuteKey → Bool
key_beq a b = (a.cat == b.cat) && (a.key == b.key) && (a.minute == b.minute)

pub key_beq_iff : (a b : MinuteKey) → (key_beq a b ≡ true) ↔ (a ≡ b)
key_beq_iff a b = (
  (λ h.
      let cats : a.cat ≡ b.cat = (bytes_beq_iff a.cat b.cat).0 (ground (arith, h)) in
      let keys : a.key ≡ b.key = (bytes_beq_iff a.key b.key).0 (ground (arith, h)) in
      let minutes : a.minute ≡ b.minute =
        (nat_eq.beq_iff a.minute b.minute).0 (ground (arith, h)) in
      cc),
  (λ e.
      subst (λ c. key_beq a c ≡ true) e
        (rw (beq_refl a.cat, beq_refl a.key, beq_refl a.minute) refl)),
)

instance abbrev pub minute_key_eq : Eq MinuteKey
minute_key_eq = record { beq = key_beq; beq_iff = key_beq_iff }

pub record MinuteShare : Type 0 where
  pub difficulty : ℕ
  pub shares : ℕ
  pub sharechain : Bytes
  pub stratum : Bytes

pub record BlockInsert : Type 0 where
  pub height : ℕ
  pub currency : String
  pub powalgo : String
  pub hash : Bytes
  pub powhash : ℕ
  pub subsidy : ℕ
  pub mined_at : ℕ
  pub mined_by : Bytes
  pub target : ℤ
  pub coinbase_hash : Bytes

pub record ShareRow : Type 0 where
  pub username : Bytes
  pub difficulty : ℕ
  pub mined_at : ℕ
  pub sharechain : Bytes
  pub currencies : List String

pub record Tables : Type 0 where
  pub utxos : List Utxo
  pub blocks : List BlockInsert
  pub minute_shares : Map MinuteKey MinuteShare
  pub shares : List ShareRow

-- The server's own: its share chain and name, and the currencies of its template keys.
pub record Server : Type 0 where
  pub chain_name : Bytes
  pub stratum_name : Bytes
  pub currencies : List Bytes

abbrev pub has_utxo : Bytes → List Utxo → Bool
has_utxo hash [] = false
has_utxo hash (u ∷ utxos) = (u.hash == hash) || has_utxo hash utxos

abbrev pub has_block : Bytes → List BlockInsert → Bool
has_block hash [] = false
has_block hash (b ∷ blocks) = (b.hash == hash) || has_block hash blocks

abbrev pub insert_utxo : Utxo → Tables → Tables
insert_utxo u t = if has_utxo u.hash t.utxos then t else record t { utxos = u ∷ t.utxos }

-- The coinbase must be there.
abbrev pub insert_block : BlockInsert → Tables → Tables
insert_block b t =
    if not (has_block b.hash t.blocks) && has_utxo b.coinbase_hash t.utxos
    then record t { blocks = b ∷ t.blocks }
    else t

abbrev pub has_cast : String → List String → Bool
has_cast code [] = false
has_cast code (c ∷ casts) = (c == code) || has_cast code casts
