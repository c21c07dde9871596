-- ===== src/Tests/Web.antt =====
-- Runs of the web API's watchers and queries, and of a service's own key.
use ngpool.Prelude.{
  ℕ, ◌≡◌, refl, Bool, true, false, String, Option, none, some, List, [], ◌∷◌, map, if◌then◌else◌,
}
use ngpool.Prelude.Map.{bytes_eq}
use ngpool.Bytes.{Bytes}
use ngpool.Service.{added, ServiceStatusUpdate}
use ngpool.Service.KeepAlive.{Etcd, Codec, Keeper, keep_alive, keep_alive-lost}
use ngpool.Web.{StratumClientStatus, Stratums, watch_stratum}
use ngpool.Web.Workers.{last_client, pointers, expected_pointers, watch_stratum-last}

abbrev client : String → StratumClientStatus
client name = record { username = name; hashrate = 5; name = "rig"; difficulty = 1 }

abbrev as_is : List StratumClientStatus → Option (List StratumClientStatus)
as_is clients = some clients

abbrev news : ServiceStatusUpdate (List StratumClientStatus)
news = record { service_id = 1 ∷ []; status = client "ann" ∷ client "bob" ∷ []; action = added }

abbrev none_yet : Stratums (List StratumClientStatus)
none_yet = record { stratums = []; heap = []; stratum_clients = [] }

watch_stratum-last_example :
    ((watch_stratum as_is news none_yet).heap
      ≡ map (last_client as_is) (watch_stratum as_is news none_yet).stratums)
    × ((user : String)
        → pointers user (watch_stratum as_is news none_yet).stratum_clients
          ≡ expected_pointers as_is user 0 (watch_stratum as_is news none_yet).stratums)
watch_stratum-last_example = watch_stratum-last as_is news none_yet

abbrev refreshed : Option Bytes → Option Bytes × Bool
refreshed none = (none, false)
refreshed (some value) = (some value, true)

refreshed-none : (s : Option Bytes) → s ≡ none → (refreshed s).0 ≡ none
refreshed-none none gone = refl
refreshed-none (some value) gone = gone

-- A key that lasts as long as nothing else happens.
abbrev etcd : Etcd (Option Bytes)
etcd = record {
  set = λ text options s. if options.refresh then refreshed s else (some text, true);
  get = λ s. s;
  pass = λ now s. s;
}

abbrev codec : Codec ℕ
codec = record { marshal = λ status. some (status ∷ []); stamped = λ now status. status ∷ now ∷ [] }

abbrev lost : Keeper ℕ (Option Bytes)
lost = record { last_value = 4 ∷ []; last_status = 4; store = none }

keep_alive-lost_example :
    etcd.get (keep_alive etcd codec ((1, none) ∷ (2, some 4) ∷ []) lost).store ≡ none
keep_alive-lost_example =
    keep_alive-lost etcd codec ((1, none) ∷ (2, some 4) ∷ []) lost
      ((λ now s gone. gone), (λ text s gone. refreshed-none s gone)) refl (tt, (refl, tt)) refl
