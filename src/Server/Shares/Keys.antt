-- ===== src/Server/Shares/Keys.antt =====
-- cmd/ngstratum/stratum.go, ListenShares: which rows of minute_share a share is for.
use ngpool.Prelude.{
  ℕ, ◌+◌, ◌≡◌, refl, ◌∙◌, Bool, true, false, ◌&&◌, ◌||◌, List, [], ◌∷◌, if◌then◌else◌, arith,
}
use ngpool.Prelude.Map.{bytes_eq, nat_eq, ◌==◌}
use ngpool.Bytes.{Bytes}
use ngpool.Client.{Share}
use ngpool.Server.Shares.{MinuteKey, minute_key_eq, Server}
use ngpool.Server.Shares.Listen.{
  sharechain_cat, currency_cat, truncate, currency_keys, share_keys, has_minute_key, are_distinct,
}

-- The names of the currencies are different.
abbrev has_name : Bytes → List Bytes → Bool
has_name name [] = false
has_name name (c ∷ names) = (c == name) || has_name name names

abbrev pub IsNameList : List Bytes → Type 0
IsNameList [] = Unit
IsNameList (c ∷ names) = (has_name c names ≡ false) × IsNameList names

-- A miner whose name is none of the two categories of the server's own rows.
abbrev pub IsMiner : Share → Type 0
IsMiner share =
    ((sharechain_cat == share.username) ≡ false) × ((currency_cat == share.username) ≡ false)

-- A share counts for its miner's worker, for the share chain and for each currency, in its minute.
abbrev pub is_of : Server → MinuteKey → Share → Bool
is_of n k share =
    (truncate share.time == k.minute)
    && (((share.username == k.cat) && (share.worker == k.key))
        || ((sharechain_cat == k.cat) && (n.chain_name == k.key))
        || ((currency_cat == k.cat) && has_name k.key n.currencies))

abbrev pub shares_of : Server → MinuteKey → List Share → ℕ
shares_of n k [] = 0
shares_of n k (share ∷ shares) = (if is_of n k share then 1 else 0) + shares_of n k shares

add_name : (p q r m : Bool) → (((p && q) && m) || (p && (r && m))) ≡ (p && ((q || r) && m))
add_name p q r m = ground arith

add_minute :
    (u w s c d h m : Bool)
    → (((u && w) && m) || (((s && c) && m) || (d && (h && m))))
      ≡ (m && ((u && w) || (s && c) || (d && h)))
add_minute u w s c d h m = ground arith

has-currency_keys :
    (names : List Bytes) (mt : ℕ) (k : MinuteKey)
    → has_minute_key k (currency_keys names mt)
      ≡ ((currency_cat == k.cat) && (has_name k.key names && (mt == k.minute)))
has-currency_keys [] mt k = ground arith
has-currency_keys (c ∷ names) mt k =
    rw (has-currency_keys names mt k)
      (add_name (currency_cat == k.cat) (c == k.key) (has_name k.key names) (mt == k.minute))

pub has-share_keys :
    (n : Server) (share : Share) (k : MinuteKey)
    → has_minute_key k (share_keys n share) ≡ is_of n k share
has-share_keys n share k = rw (has-currency_keys n.currencies (truncate share.time) k) (
    add_minute (share.username == k.cat) (share.worker == k.key) (sharechain_cat == k.cat)
      (n.chain_name == k.key) (currency_cat == k.cat) (has_name k.key n.currencies)
      (truncate share.time == k.minute))

currency_keys-distinct :
    (names : List Bytes) (mt : ℕ) → IsNameList names → are_distinct (currency_keys names mt) ≡ true
currency_keys-distinct [] mt h = refl
currency_keys-distinct (c ∷ names) mt h =
    let new : has_minute_key (record { cat = currency_cat; key = c; minute = mt })
          (currency_keys names mt)
        ≡ false =
      has-currency_keys names mt (record { cat = currency_cat; key = c; minute = mt })
      ∙ rw (h.0) refl in
    rw (new, currency_keys-distinct names mt h.1) refl

pub share_keys-distinct :
    (n : Server) (share : Share)
    → IsNameList n.currencies
    → IsMiner share
    → are_distinct (share_keys n share) ≡ true
share_keys-distinct n share names (no_chain, no_currency) =
    let mt = truncate share.time in
    let user : MinuteKey = record { cat = share.username; key = share.worker; minute = mt } in
    let chain : MinuteKey = record { cat = sharechain_cat; key = n.chain_name; minute = mt } in
    let user_new = has-currency_keys n.currencies mt user in
    let chain_new = has-currency_keys n.currencies mt chain in
    let rest = currency_keys-distinct n.currencies mt names in
    rw (user_new, chain_new, no_chain, no_currency, rest) refl
