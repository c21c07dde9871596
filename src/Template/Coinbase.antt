-- ===== src/Template/Coinbase.antt =====
-- cmd/ngstratum/bt.go: the two halves of a coinbase.
use ngpool.Prelude.{◌≡◌, ◌∙◌, sym, ap, List, [], ◌∷◌, ◌++◌, arith}
use ngpool.Prelude.Run.{ok, >>=-eq-ok}
use ngpool.Bytes.{Bytes, split}
use ngpool.Bytes.Split.{join, join-split}
use ngpool.Config.{ChainConfig}
use ngpool.Template.{
  Deps, BlockTemplate, create_coinbase, create_coinbase_split, extra_nonce_magic, two_parts,
}

module _ (deps : Deps) where
  two_parts-join :
      (parts : List Bytes) (a b : Bytes)
      → two_parts parts ≡ ok (a, b)
      → join extra_nonce_magic parts ≡ a ++ (extra_nonce_magic ++ b)
  two_parts-join [] a b e = cc
  two_parts-join (x ∷ []) a b e = cc
  two_parts-join (x ∷ y ∷ []) a b e =
      let same : (x ≡ a) × (y ≡ b) = ground arith in rw (same.0, same.1)
  two_parts-join (x ∷ y ∷ z ∷ parts) a b e = cc

  -- The halves that createCoinbaseSplit returns, with the extranonce's placeholder between them, are
  -- the coinbase that createCoinbase makes for the placeholder behind the extra data.
  pub create_coinbase_split-join :
      (t : BlockTemplate) (config : ChainConfig) (extra coinbase1 coinbase2 : Bytes)
      → create_coinbase_split deps t config extra ≡ ok (coinbase1, coinbase2)
      → create_coinbase deps t config (extra ++ extra_nonce_magic)
        ≡ ok (coinbase1 ++ (extra_nonce_magic ++ coinbase2))
  unfolding create_coinbase_split
  create_coinbase_split-join t config extra c1 c2 e =
      let (raw, made, parts) =
        >>=-eq-ok (create_coinbase deps t config (extra ++ extra_nonce_magic)) _ e in
      made
      ∙ ap ok
          (sym (join-split 0xdb _ raw) ∙ two_parts-join (split raw extra_nonce_magic) c1 c2 parts)
