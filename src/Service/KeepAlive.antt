-- ===== src/Service/KeepAlive.antt =====
-- pkg/service/service.go, KeepAlive: a service's own key. etcd and json.Marshal are parameters.
use ngpool.Prelude.{
  ℕ, ◌≡◌, refl, ap, ◌∙◌, Bool, true, false, Option, none, some, List, [], ◌∷◌, if◌then◌else◌, All,
}
use ngpool.Prelude.Map.{bytes_eq, beq_refl, ◌==◌}
use ngpool.Bytes.{Bytes}

-- client.SetOptions, of which every call sets the time to live to two seconds.
pub record SetOptions : Type 0 where
  pub refresh : Bool
  pub prev_exist : Bool

-- A key in etcd: a call of Set on it, with whether it succeeded; its value; and what a second of
-- time does, or another client.
pub record Etcd (S : Type 0) : Type 0 where
  pub set : Bytes → SetOptions → S → S × Bool
  pub get : S → Option Bytes
  pub pass : ℕ → S → S

-- `marshal` is of the labels and a status, `stamped` also of the time.
pub record Codec (Status : Type 0) : Type 0 where
  pub marshal : Status → Option Bytes
  pub stamped : ℕ → Status → Bytes

pub record Keeper (Status S : Type 0) : Type 0 where
  pub last_value : Bytes
  pub last_status : Status
  pub store : S

module _ {Status : Type 0} where
  abbrev pub latest : Option Status → Status → Status
  latest none old = old
  latest (some status) old = status

  -- What is set, under which options, and the last value after it.
  abbrev pub request : Codec Status → ℕ → Status → Bytes → Bytes → Bytes × SetOptions × Bytes
  request codec now status value last_value =
      if value == last_value
      then ([], record { refresh = true; prev_exist = true }, last_value)
      else (codec.stamped now status, record { refresh = false; prev_exist = false }, value)

module _ {Status S : Type 0} (etcd : Etcd S) (codec : Codec Status) where
  -- A round of the loop, at a time: the status that was pushed, if one was. A Set that fails is
  -- logged only.
  abbrev pub round : ℕ → Option Status → Keeper Status S → Keeper Status S
  round now pushed k =
      let status = latest pushed k.last_status in
      let store = etcd.pass now k.store in
      elim (codec.marshal status) [
        | none ↦ record k { last_status = status; store = store }
        | some value ↦
            let (text, options, last_value) = request codec now status value k.last_value in
            record {
              last_value = last_value;
              last_status = status;
              store = (etcd.set text options store).0;
            }
      ]

  unfoldable pub keep_alive : List (ℕ × Option Status) → Keeper Status S → Keeper Status S
  keep_alive [] k = k
  keep_alive ((now, pushed) ∷ rounds) k = keep_alive rounds (round now pushed k)

  -- A key that is missing stays so when time passes, and a refresh of it fails.
  abbrev IsRefreshing : Type 0
  IsRefreshing =
      ((now : ℕ) (s : S) → etcd.get s ≡ none → etcd.get (etcd.pass now s) ≡ none)
      × ((text : Bytes) (s : S)
          → etcd.get s ≡ none
          → etcd.get (etcd.set text (record { refresh = true; prev_exist = true }) s).0 ≡ none)

  -- Nothing is pushed, or a status with the same value.
  abbrev pub IsSame : Bytes → ℕ × Option Status → Type 0
  IsSame value (now, none) = Unit
  IsSame value (now, some status) = codec.marshal status ≡ some value

  latest-IsSame :
      (value : Bytes) (now : ℕ) (pushed : Option Status) (old : Status)
      → codec.marshal old ≡ some value
      → IsSame value (now, pushed)
      → codec.marshal (latest pushed old) ≡ some value
  latest-IsSame value now none old e same = e
  latest-IsSame value now (some status) old e same = same

  -- Once the key is lost, KeepAlive does not set it again as long as the status's value stays the
  -- same: each of its rounds only asks etcd to refresh what is not there.
  pub keep_alive-lost :
      (rounds : List (ℕ × Option Status)) (k : Keeper Status S)
      → IsRefreshing
      → codec.marshal k.last_status ≡ some k.last_value
      → All (IsSame k.last_value) rounds
      → etcd.get k.store ≡ none
      → etcd.get (keep_alive rounds k).store ≡ none
  unfolding keep_alive
  keep_alive-lost [] k refreshing current same lost = lost
  keep_alive-lost ((now, pushed) ∷ rounds) k refreshing current same lost =
      let status = latest pushed k.last_status in
      let value = latest-IsSame k.last_value now pushed k.last_status current same.0 in
      let store = etcd.pass now k.store in
      let after : Keeper Status S = record {
        last_value = k.last_value;
        last_status = status;
        store = (etcd.set [] (record { refresh = true; prev_exist = true }) store).0;
      } in
      let same_value : (k.last_value == k.last_value) ≡ true = beq_refl k.last_value in
      let reached : round now pushed k ≡ after = rw (value, same_value, round, request) refl in
      ap (λ (j : Keeper Status S). etcd.get (keep_alive rounds j).store) reached
      ∙ keep_alive-lost rounds after refreshing value same.1
          (refreshing.1 [] store (refreshing.0 now k.store lost))
