-- ===== src/Coinserver/Wait.antt =====
-- cmd/ngcoinserver/coinserver.go, WaitUntilUp: when it ends, and with what.
use ngpool.Prelude.{
  ℕ, zero, suc, ◌+◌, ◌≤◌, ◌<◌, ◌≡◌, sym, ap, ◌==◌, ◌⊎◌, inl, inr, String, Option, none, some,
  Bool-cases, arith,
}
use mathlib.Core.Path.{subst}
use ngpool.Coinserver.{wait_loop, wait_until_up}

module _ (get_info : ℕ → Option String) where
  abbrev IsDown : ℕ → Type 0
  IsDown j = (e : String) × (get_info j ≡ some e)

  wait_loop_lem :
      (left from i : ℕ)
      → from ≤ i
      → i ≤ from + left
      → ((j : ℕ) → from ≤ j → j < i → IsDown j)
      → (i ≡ from + left) ⊎ (get_info i ≡ none)
      → wait_loop get_info left from none ≡ (i, none)
  wait_loop_lem zero from i above below down end =
      let same : from ≡ i = omega (arith, above, below) in ap (λ k. (k, none)) same
  wait_loop_lem (suc left) from i above below down end = elim (Bool-cases (from == i)) [
    | inr apart ↦
        let (e, failed) = down from (omega arith) (ground (arith, above, apart)) in
        rw (failed, wait_loop)
          (wait_loop_lem left (suc from) i (ground (arith, above, apart)) (omega (arith, below))
            (λ j later earlier. down j (omega (arith, later)) earlier)
            (elim end [ inl last ↦ inl (omega (arith, last)) | inr up ↦ inr up ]))
    | inl here ↦
        let same : i ≡ from = ground (arith, here) in
        elim end [
          | inl last ↦ absurd (omega (arith, last, same))
          | inr up ↦
              let up' : get_info from ≡ none = subst (λ k. get_info k ≡ none) same up in
              rw (up', wait_loop) (ap (λ k. (k, none)) (sym same))
        ]
  ]

  -- WaitUntilUp asks until the first call that succeeds, 900 times at most, and returns no error in
  -- either case: not when every call failed.
  pub wait_until_up_lem :
      (i : ℕ)
      → i ≤ 900
      → ((j : ℕ) → j < i → IsDown j)
      → (i ≡ 900) ⊎ (get_info i ≡ none)
      → wait_until_up get_info ≡ (i, none)
  unfolding wait_until_up
  wait_until_up_lem i below down end =
      wait_loop_lem 900 0 i (omega arith) below (λ j _ earlier. down j earlier) end
