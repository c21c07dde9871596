-- ===== src/Blocks/Status.antt =====
-- cmd/ngweb/confirmblocks.go: the statuses only move from immature, and a coinbase becomes
-- spendable only with its block.
use ngpool.Prelude.{
  zero, suc, ◌≡◌, refl, ◌∙◌, Bool, true, false, ◌&&◌, ◌||◌, not, String, ◌↔◌, inl, inr, Option,
  none, some, List, [], ◌∷◌, if◌then◌else◌, Bool-cases, Option-cases, arith,
}
use ngpool.Prelude.Int.{ℤ, pos, negsuc, ◌-ℤ◌, ◌≤ℤ◌, ltb_ℤ}
use ngpool.Prelude.Map.{Map, lookup, string_eq, ◌==◌}
use ngpool.Config.{ChainConfig}
use ngpool.Credits.{BlockRow, BlockStatus, immature, orphan, mature}
use ngpool.Blocks.{
  CoinServer, CoinbaseUtxo, Ledger, new_status, set_status, set_spendable, apply_status, apply_new,
  chain_height, confirm_block, confirm_loop,
}

-- Whether one of these blocks has a hash.
abbrev pub among : String → List BlockRow → Bool
among hash [] = false
among hash (b ∷ blocks) = (b.hash == hash) || among hash blocks

-- Whether one of these blocks has a coinbase.
abbrev coinbase_among : String → List BlockRow → Bool
coinbase_among hash [] = false
coinbase_among hash (b ∷ blocks) = (b.coinbase_hash == hash) || coinbase_among hash blocks

abbrev pub find_block : String → List BlockRow → Option BlockRow
find_block hash [] = none
find_block hash (b ∷ blocks) = if b.hash == hash then some b else find_block hash blocks

abbrev pub can_spend : String → List CoinbaseUtxo → Option Bool
can_spend hash [] = none
can_spend hash (u ∷ utxos) = if u.hash == hash then some u.spendable else can_spend hash utxos

apart :
    (x hash other : String) → (hash == other) ≡ false → (x == hash) ≡ true → (x == other) ≡ false
apart x hash other h e = ground (
  arith,
  h,
  (string_eq.beq_iff x hash).0 e,
  (string_eq.beq_iff hash other).1,
  (string_eq.beq_iff x other).0,
)

set_status-other :
    (s : BlockStatus) (hash other : String) (blocks : List BlockRow)
    → (hash == other) ≡ false
    → find_block other (set_status s hash blocks) ≡ find_block other blocks
set_status-other s hash other [] h = refl
set_status-other s hash other (b ∷ blocks) h =
    let ih = set_status-other s hash other blocks h in
    elim (Bool-cases (b.hash == hash)) [
      | inl here ↦ rw (here, apart b.hash hash other h here) ih
      | inr there ↦ rw there (elim (Bool-cases (b.hash == other)) [
        | inl found ↦ rw found refl
        | inr next ↦ rw next ih
      ])
    ]

set_spendable-other :
    (hash other : String) (utxos : List CoinbaseUtxo)
    → (hash == other) ≡ false
    → can_spend other (set_spendable hash utxos) ≡ can_spend other utxos
set_spendable-other hash other [] h = refl
set_spendable-other hash other (u ∷ utxos) h =
    let ih = set_spendable-other hash other utxos h in
    elim (Bool-cases (u.hash == hash)) [
      | inl here ↦ rw (here, apart u.hash hash other h here) ih
      | inr there ↦ rw there (elim (Bool-cases (u.hash == other)) [
        | inl found ↦ rw found refl
        | inr next ↦ rw next ih
      ])
    ]

-- The rest of the ledger, seen from a hash of a block and a hash of a UTXO.
abbrev IsSame : String → String → Ledger → Ledger → Type 0
IsSame hash coinbase l l' =
    (find_block hash l'.blocks ≡ find_block hash l.blocks)
    × (can_spend coinbase l'.utxos ≡ can_spend coinbase l.utxos)

apply_new-others :
    (b : BlockRow) (s : Option BlockStatus) (hash coinbase : String) (l : Ledger)
    → (b.hash == hash) ≡ false
    → (b.coinbase_hash == coinbase) ≡ false
    → IsSame hash coinbase l (apply_new b s l)
unfolding apply_status
apply_new-others b none hash coinbase l h c = (refl, refl)
apply_new-others b (some immature) hash coinbase l h c =
    (set_status-other immature b.hash hash l.blocks h, refl)
apply_new-others b (some orphan) hash coinbase l h c =
    (set_status-other orphan b.hash hash l.blocks h, refl)
apply_new-others b (some mature) hash coinbase l h c = (
  set_status-other mature b.hash hash l.blocks h,
  set_spendable-other b.coinbase_hash coinbase l.utxos c,
)

module _ (configs : Map String ChainConfig) (servers : Map String CoinServer) where
  confirm_block-others :
      (b : BlockRow) (heights : Map String ℤ) (hash coinbase : String) (l : Ledger)
      → (b.hash == hash) ≡ false
      → (b.coinbase_hash == coinbase) ≡ false
      → IsSame hash coinbase l (confirm_block configs servers b heights l).1
  unfolding confirm_block
  confirm_block-others b heights hash coinbase l h c =
      elim (Option-cases (lookup b.currency configs)) [
        | inl unknown ↦ rw (unknown, confirm_block) (refl, refl)
        | inr (config, known) ↦ elim (Option-cases (lookup b.currency servers)) [
          | inl dead ↦ rw (known, dead, confirm_block) (refl, refl)
          | inr (server, live) ↦ elim (Option-cases (server.get_block_verbose b.hash)) [
            | inl silent ↦ rw (known, live, silent, confirm_block) (refl, refl)
            | inr ((confirmations, height), seen) ↦
                elim (Option-cases (chain_height server b.currency heights)) [
                  | inl silent ↦ rw (known, live, seen, silent, confirm_block) (refl, refl)
                  | inr (count, counted) ↦
                      rw (known, live, seen, counted, confirm_block)
                        (apply_new-others b
                          (new_status (pos config.block_mature_confirms) confirmations count height)
                          hash coinbase l h c)
                ]
          ]
        ]
      ]

  -- ConfirmBlocks' loop over the blocks that its query found, which runs before GenerateCredits, changes
  -- no row of another block and makes no UTXO spendable but those blocks' coinbases.
  pub confirm_loop-others :
      (blocks : List BlockRow) (heights : Map String ℤ) (hash coinbase : String) (l : Ledger)
      → among hash blocks ≡ false
      → coinbase_among coinbase blocks ≡ false
      → (find_block hash (confirm_loop configs servers blocks heights l).blocks
          ≡ find_block hash l.blocks)
        × (can_spend coinbase (confirm_loop configs servers blocks heights l).utxos
            ≡ can_spend coinbase l.utxos)
  unfolding confirm_loop
  confirm_loop-others [] heights hash coinbase l h c = (refl, refl)
  confirm_loop-others (b ∷ blocks) heights hash coinbase l h c =
      let r = confirm_block configs servers b heights l in
      let one =
        confirm_block-others b heights hash coinbase l (ground (arith, h)) (ground (arith, c)) in
      let rest =
        confirm_loop-others blocks r.0 hash coinbase r.1 (ground (arith, h)) (ground (arith, c)) in
      (rest.0 ∙ one.0, rest.1 ∙ one.1)

exactly_1 : (n : ℤ) → ltb_ℤ n (negsuc 0) ≡ false → ltb_ℤ (negsuc 0) n ≡ false → n ≡ negsuc 0
exactly_1 (pos n) h k = ground arith
exactly_1 (negsuc zero) h k = refl
exactly_1 (negsuc (suc n)) h k = ground arith

not_gone :
    (n required past : ℤ)
    → n ≡ negsuc 0
    → ltb_ℤ required past ≡ true
    → (not (ltb_ℤ n (negsuc 0)) && not (ltb_ℤ (negsuc 0) n) && ltb_ℤ required past) ≡ false
    → ⊥
not_gone (pos n) required past e h gone = cc
not_gone (negsuc zero) required past e h gone = ground (arith, h, gone)
not_gone (negsuc (suc n)) required past e h gone = ground arith

-- A block becomes mature exactly when it has the confirmations that its currency asks for, and an
-- orphan exactly when it has fewer, the server reports -1, and the chain has grown past it by more
-- than those.
pub new_status-mature :
    (required confirmations height block_height : ℤ)
    → ((new_status required confirmations height block_height ≡ some mature)
        ↔ (required ≤ℤ confirmations))
      × ((new_status required confirmations height block_height ≡ some orphan) ↔ (
          (ltb_ℤ confirmations required ≡ true)
          × (confirmations ≡ negsuc 0)
          × (ltb_ℤ required (height -ℤ block_height) ≡ true)))
unfolding new_status
new_status-mature required confirmations height block_height =
    elim (Bool-cases (ltb_ℤ confirmations required)) [
      | inr enough ↦
          rw enough (((λ e. ground arith), (λ le. refl)), ((λ e. cc), (λ (few, _, _). cc (few))))
      | inl few ↦
          let gone =
            not (ltb_ℤ confirmations (negsuc 0))
            && not (ltb_ℤ (negsuc 0) confirmations)
            && ltb_ℤ required (height -ℤ block_height) in
          elim (Bool-cases gone) [
            | inl lost ↦
                let at_1 : confirmations ≡ negsuc 0 =
                  exactly_1 confirmations (ground (arith, lost)) (ground (arith, lost)) in
                let past : ltb_ℤ required (height -ℤ block_height) ≡ true = ground (arith, lost) in
                rw (few, lost)
                  (
                    ((λ e. cc), (λ le. ground (arith, few, le))),
                    ((λ e. (refl, at_1, past)), (λ h. refl)),
                  )
            | inr young ↦
                rw (few, young)
                  (
                    ((λ e. cc), (λ le. ground (arith, few, le))),
                    (
                      (λ e. cc),
                      (λ h.
                          elim (not_gone confirmations required (height -ℤ block_height) h.1 h.2
                            young) [ ]),
                    ),
                  )
          ]
    ]
