-- ===== src/Prelude/Map.antt =====
-- Go maps as association lists, over keys with a Boolean equality.
use Prim.Native.Nat.{ℕ}
use Prim.Native.String.{String}
use mathlib.Core.Path.{◌≡◌, refl}
use mathlib.Core.Logic.{◌↔◌}
use mathlib.Core.Bool.{Bool, true, false, ◌&&◌}
use mathlib.Core.Option.{Option, none, some}
use mathlib.Core.List.{List, [], ◌∷◌}
use native.Mathlib.Omega.{arith}
use text.Mathlib.Text.{◌==◌ as str_eq}
use text.Mathlib.TextEquality.{eq_iff}
use ngpool.Prelude.Tests.{◌==◌ as nat_beq, ==_iff, if◌then◌else◌}

pub record Eq {ℓ} (A : Type ℓ) : Type ℓ where
  pub beq : A → A → Bool
  pub beq_iff : (x y : A) → (beq x y ≡ true) ↔ (x ≡ y)

infix 50 ◌==◌
abbrev pub ◌==◌ {ℓ} : {A : Type ℓ} ⦃e : Eq A⦄ → A → A → Bool
◌==◌ ⦃e⦄ = e.beq

abbrev pub bytes_beq : List ℕ → List ℕ → Bool
bytes_beq [] [] = true
bytes_beq (a ∷ x) (b ∷ y) = nat_beq a b && bytes_beq x y
bytes_beq _ _ = false

instance abbrev pub nat_eq : Eq ℕ
nat_eq = record { beq = nat_beq; beq_iff = ==_iff }

pub bytes_beq_iff : (a b : List ℕ) → (bytes_beq a b ≡ true) ↔ (a ≡ b)
bytes_beq_iff [] [] = ground arith
bytes_beq_iff [] (b ∷ y) = ground arith
bytes_beq_iff (a ∷ x) [] = ground arith
bytes_beq_iff (a ∷ x) (b ∷ y) = let ih = bytes_beq_iff x y in ground (arith, ih.0, ih.1)

instance abbrev pub bytes_eq : Eq (List ℕ)
bytes_eq = record { beq = bytes_beq; beq_iff = bytes_beq_iff }

instance abbrev pub string_eq : Eq String
string_eq = record { beq = str_eq; beq_iff = eq_iff }

pub beq_refl {ℓ} : {K : Type ℓ} ⦃e : Eq K⦄ (k : K) → (k == k) ≡ true
beq_refl ⦃e⦄ k = (e.beq_iff k k).1 refl

abbrev pub Map {ℓ κ} : Type ℓ → Type κ → Type (ℓ ⊔ κ)
Map K V = List (K × V)

module _ {ℓ κ} {K : Type ℓ} ⦃e : Eq K⦄ {V : Type κ} where
  -- delete(m, k)
  unfoldable pub delete : K → Map K V → Map K V
  delete key [] = []
  delete key (entry ∷ m) =
      let others = delete key m in if entry.0 == key then others else entry ∷ others

  -- m[k] = v
  unfoldable pub insert : K → V → Map K V → Map K V
  insert key v [] = (key, v) ∷ []
  insert key v (entry ∷ m) = if entry.0 == key then (key, v) ∷ m else entry ∷ insert key v m

  -- m[k]
  unfoldable pub lookup : K → Map K V → Option V
  lookup key [] = none
  lookup key (entry ∷ m) = if entry.0 == key then some entry.1 else lookup key m

  pub lookup-insert :
      (key other : K) (v : V) (m : Map K V)
      → lookup other (insert key v m) ≡ (if key == other then some v else lookup other m)
  unfolding lookup insert
  lookup-insert key other v [] = refl
  lookup-insert key other v (entry ∷ m) = ground (
    arith,
    (e.beq_iff key other).0,
    (e.beq_iff key other).1,
    (e.beq_iff entry.0 key).0,
    (e.beq_iff entry.0 key).1,
    (e.beq_iff entry.0 other).0,
    (e.beq_iff entry.0 other).1,
    lookup-insert key other v m,
  )

  pub lookup-delete :
      (k j : K) (m : Map K V) → lookup j (delete k m) ≡ (if k == j then none else lookup j m)
  unfolding lookup delete
  lookup-delete k j [] = ground arith
  lookup-delete k j ((i, w) ∷ m) = ground (
    arith,
    lookup-delete k j m,
    (e.beq_iff k j).0,
    (e.beq_iff k j).1,
    (e.beq_iff i k).0,
    (e.beq_iff i k).1,
    (e.beq_iff i j).0,
    (e.beq_iff i j).1,
  )

  pub lookup-insert_self : (k : K) (v : V) (m : Map K V) → lookup k (insert k v m) ≡ some v
  lookup-insert_self k v m = rw (lookup-insert k k v m, beq_refl k)
