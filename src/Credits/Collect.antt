-- ===== src/Credits/Collect.antt =====
-- cmd/ngweb/generatecredits.go, collectShares: the pages of 100 rows give what one pass over all
-- the rows gives.
use ngpool.Prelude.{
  ℕ, zero, suc, ◌+◌, ◌≤◌, ◌<◌, ◌≡◌, refl, sym, ap, ◌∙◌, String, Bool, false, inl, inr, List, [],
  ◌∷◌, if◌then◌else◌, take, drop, length, Bool-cases, ◌==◌, arith,
}
use ngpool.Prelude.Run.{ok}
use ngpool.Config.{Float}
use ngpool.Credits.{
  FloatOps, Db, Row, Found, page_loop, collect_loop, collect_shares, share_rows, count_share,
  no_shares,
}

-- A pass over the rest, unless the pass so far found enough.
abbrev go_on : FloatOps → Float → List Row → Bool × Found → Bool × Found
go_on f c rows r = if r.0 then r else page_loop f c rows r.1

page_loop-take :
    (f : FloatOps) (c : Float) (n : ℕ) (rows : List Row) (s : Found)
    → page_loop f c rows s ≡ go_on f c (drop n rows) (page_loop f c (take n rows) s)
unfolding page_loop
page_loop-take f c zero rows s = refl
page_loop-take f c (suc n) [] s = refl
page_loop-take f c (suc n) (r ∷ rows) s =
    let s' = count_share f r s in
    elim (Bool-cases (f.at_least s'.accumulated c)) [
      | inl enough ↦ rw enough refl
      | inr few ↦ rw few (page_loop-take f c n rows s')
    ]

drop-nil {ℓ} : {A : Type ℓ} (n : ℕ) → ◌≡◌ {A = List A} (drop n []) []
drop-nil zero = refl
drop-nil (suc n) = refl

drop-drop {ℓ} : {A : Type ℓ} (m n : ℕ) (xs : List A) → drop n (drop m xs) ≡ drop (m + n) xs
drop-drop zero n xs = ap (λ k. drop k xs) (omega arith)
drop-drop (suc m) n [] = drop-nil n ∙ sym (drop-nil (suc m + n))
drop-drop (suc m) n (x ∷ xs) =
    drop-drop m n xs ∙ ap (λ k. drop k (x ∷ xs)) {x = suc (m + n)} (omega arith)

length-drop {ℓ} : {A : Type ℓ} (n : ℕ) (xs : List A) → length (drop n xs) ≤ length xs
length-drop zero xs = omega arith
length-drop (suc n) [] = omega arith
length-drop (suc n) (x ∷ xs) = omega (arith, length-drop n xs)

-- One page, when the loop does what one pass does from the next offset on.
collect_loop-page :
    (f : FloatOps) (fuel : ℕ) (c : Float) (rows : List Row) (offset : ℕ) (s : Found) (d : List Row)
    → drop offset rows ≡ d
    → length d ≤ fuel
    → ((s' : Found)
        → length (drop 100 d) < fuel
        → collect_loop f fuel c rows (offset + 100) s' ≡ ok (page_loop f c (drop 100 d) s').1)
    → collect_loop f (suc fuel) c rows offset s ≡ ok (page_loop f c d s).1
unfolding collect_loop
collect_loop-page f fuel c rows offset s [] e h next = rw (e, page_loop) refl
collect_loop-page f fuel c rows offset s (r ∷ d) e h next =
    let page = take 100 (r ∷ d) in
    let rest = next (page_loop f c page s).1 (omega (arith, length-drop 99 d)) in
    let nonempty : (length page == 0) ≡ false = ground arith in
    elim (Bool-cases (page_loop f c page s).0) [
      | inl enough ↦ rw (e, page_loop-take f c 100 (r ∷ d) s, nonempty, enough) refl
      | inr few ↦ rw (e, page_loop-take f c 100 (r ∷ d) s, nonempty, few) rest
    ]

collect_loop-pass :
    (f : FloatOps) (fuel : ℕ) (c : Float) (rows : List Row) (offset : ℕ) (s : Found)
    → length (drop offset rows) < fuel
    → collect_loop f fuel c rows offset s ≡ ok (page_loop f c (drop offset rows) s).1
collect_loop-pass f zero c rows offset s h = ground arith
collect_loop-pass f (suc fuel) c rows offset s h =
    let same = drop-drop offset 100 rows in
    collect_loop-page f fuel c rows offset s (drop offset rows) refl (omega arith) (λ s' shorter.
      rw same (collect_loop-pass f fuel c rows (offset + 100) s' (rw (sym same) shorter)))

-- For every database, share count, chain and start, collect_shares returns, and the pages of 100
-- rows credit each user with what a single pass over all the query's rows gives.
pub collect_shares-pass :
    (f : FloatOps) (db : Db) (share_count : Float) (chain : String) (start : ℕ)
    → collect_shares f db share_count chain start
      ≡ ok (page_loop f share_count (share_rows f db chain start) (no_shares f)).1
unfolding collect_shares
collect_shares-pass f db share_count chain start =
    let rows = share_rows f db chain start in
    collect_loop-pass f (length rows + 1) share_count rows 0 (no_shares f) (omega arith)
