-- ===== src/Sign.antt =====
-- cmd/ngsign/main.go: the signing of a payout. Requests, keys, scripts and transactions of btcd are
-- parameters; hashes are bytes, not yet in hexadecimal.
use ngpool.Prelude.{ℕ, zero, suc, ◌&&◌, String, Option, none, some, List, [], ◌∷◌, if◌then◌else◌}
use ngpool.Prelude.Map.{Map, lookup, insert, nat_eq, bytes_eq, string_eq, ◌==◌}
use ngpool.Prelude.Run.{Run, ok, err, or_err, ◌>>=◌}
use ngpool.Bytes.{Bytes, reverse_bytes}
use ngpool.Payout.{Input, PayoutMeta}

-- An input, and the rest of a transaction.
pub record TxIn : Type 0 where
  pub hash : Bytes
  pub index : ℕ
  pub signature_script : Bytes

pub record Tx (Rest : Type 0) : Type 0 where
  pub tx_in : List TxIn
  pub rest : Rest

-- btcutil, txscript and wire, with the chain's parameters. A key closure gives a key for an address,
-- and a signature that fails has no bytes.
pub record Btcd (Rest Key Address : Type 0) : Type 0 where
  pub hex_string_to_tx : String → Option (Tx Rest)
  pub decode_address : String → Option Address
  pub pay_to_addr_script : Address → Option Bytes
  pub sign_tx_output : Tx Rest → ℕ → Bytes → (String → Option Key) → Option Bytes
  pub serialize_no_witness : Tx Rest → Bytes
  pub decode_wif : String → Option Key
  pub new_address_pub_key : Key → Option String

-- The answer to the request for a payout: none, one that is no JSON, one with errors, or one with a
-- transaction, which may be empty.
pub data Created : Type 0 where
  unreachable malformed refused : Created
  created : String → PayoutMeta → Created

-- What the signer ends with: there was nothing to do, or this was posted.
pub data Signed : Type 0 where
  nothing_due : Signed
  posted : Bytes → PayoutMeta → Signed

-- The address of the UTXO that an input spends; an empty one counts as none.
abbrev link : TxIn → List Input → String
link input [] = ""
link input (utxo ∷ utxos) =
    if (utxo.hash == reverse_bytes input.hash) && (input.index == utxo.vout)
    then utxo.address
    else link input utxos

abbrev pub or_nil : Option Bytes → Bytes
or_nil none = []
or_nil (some script) = script

abbrev set_script : ℕ → Bytes → List TxIn → List TxIn
set_script i script [] = []
set_script zero script (input ∷ rest) = record input { signature_script = script } ∷ rest
set_script (suc i) script (input ∷ rest) = input ∷ set_script i script rest

module _ {Rest Key Address : Type 0} (btcd : Btcd Rest Key Address) where
  -- The loop over the inputs from the i-th on. The error of SignTxOutput is not looked at.
  unfoldable sign_inputs : Map String Key → List Input → ℕ → List TxIn → Tx Rest → Run (Tx Rest)
  unfolding lookup
  sign_inputs keys utxos i [] tx = ok tx
  sign_inputs keys utxos i (input ∷ rest) tx =
      if link input utxos == ""
      then err "Failed to find UTXO linking to input"
      else (or_err "Invalid address in UTXO from server" (btcd.decode_address (link input utxos))
          >>= λ addr. or_err "script" (btcd.pay_to_addr_script addr) >>= λ pk_script.
              let script = or_nil (btcd.sign_tx_output tx i pk_script (λ a. lookup a keys)) in
              sign_inputs keys utxos (suc i) rest
                (record tx { tx_in = set_script i script tx.tx_in }))

  -- sign, until it posts.
  unfoldable sign : Map String Key → Created → Run Signed
  unfolding sign_inputs
  sign keys unreachable = err "request"
  sign keys malformed = err "json"
  sign keys refused = err "Error from remote"
  sign keys (created hex meta) =
      if hex == ""
      then ok nothing_due
      else (or_err "tx" (btcd.hex_string_to_tx hex) >>= λ tx.
          sign_inputs keys meta.inputs 0 tx.tx_in tx >>= λ signed.
          ok (posted (btcd.serialize_no_witness signed) meta))

  -- The end of sign: the status of the answer, if one came.
  unfoldable finish : Option ℕ → Run {0} Unit
  finish none = err "request"
  finish (some status) = if status == 200 then ok tt else err "Got non-200 from submission"

  -- loadAddresses
  unfoldable load_addresses : List String → Map String Key → Run (Map String Key)
  unfolding insert
  load_addresses [] ret = ok ret
  load_addresses (privkey ∷ addrs) ret = or_err "invalid idx" (btcd.decode_wif privkey) >>= λ key.
      or_err "invalid idx" (btcd.new_address_pub_key key) >>= λ addr.
      load_addresses addrs (insert addr key ret)
