-- ===== src/Broadcast.antt =====
-- pkg/lbroadcast/last.go: a broadcaster that gives its last item to every new listener.
-- A channel is a number. The sends block in the source, and are a log in their order here.
pub mod Order
use ngpool.Prelude.{
  ℕ, Bool, true, false, ◌||◌, Option, none, some, List, [], ◌∷◌, ◌++◌, map, if◌then◌else◌, ◌==◌,
}

module _ {ℓ} (A : Type ℓ) where
  -- What the select of `run` takes: Submit, Register, Close and Unregister.
  pub data Request : Type ℓ where
    submit : A → Request
    register unregister : ℕ → Request
    close : Request

  -- A nil item is `none`.
  pub record Broadcaster : Type ℓ where
    pub last_send : Option A
    pub outputs : List ℕ
    pub log : List (ℕ × Option A)

abbrev pub has_output : ℕ → List ℕ → Bool
has_output ch [] = false
has_output ch (o ∷ outputs) = (o == ch) || has_output ch outputs

abbrev pub add_output : ℕ → List ℕ → List ℕ
add_output ch outputs = if has_output ch outputs then outputs else ch ∷ outputs

abbrev pub remove_output : ℕ → List ℕ → List ℕ
remove_output ch [] = []
remove_output ch (o ∷ outputs) =
    let rest = remove_output ch outputs in if o == ch then rest else o ∷ rest

module _ {ℓ} {A : Type ℓ} where
  -- The loop up to the request at which it returns.
  unfoldable pub run : List (Request A) → Broadcaster A → Broadcaster A
  run [] b = b
  run (submit item ∷ requests) b = run requests (record b {
    last_send = some item;
    log = b.log ++ map (λ (ch : ℕ). (ch, some item)) b.outputs;
  })
  run (register ch ∷ requests) b =
      run requests
        (record b { outputs = add_output ch b.outputs; log = b.log ++ (ch, b.last_send) ∷ [] })
  run (unregister ch ∷ requests) b =
      run requests (record b { outputs = remove_output ch b.outputs })
  run (close ∷ requests) b = b
