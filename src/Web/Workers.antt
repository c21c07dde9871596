-- ===== src/Web/Workers.antt =====
-- cmd/ngweb/api.go, WatchStratum: the addresses of the loop's one variable.
use mathlib.Core.List.{append-nil, append_assoc}
use ngpool.Prelude.{
  ℕ, suc, ◌≡◌, refl, sym, ap, ◌∙◌, String, Option, none, some, List, [], ◌∷◌, ◌++◌, map, Bool-cases,
  inl, inr, if◌then◌else◌,
}
use ngpool.Prelude.Map.{Map, lookup, lookup-insert, string_eq, bytes_eq, ◌==◌}
use ngpool.Bytes.{Bytes}
use ngpool.Service.{ServiceStatusUpdate}
use ngpool.Web.{
  StratumClientStatus, Stratums, or_nil, push, list_clients, clients_in, list_stratums,
  watch_stratum,
}

abbrev last_or : Option StratumClientStatus → List StratumClientStatus → Option StratumClientStatus
last_or cell [] = cell
last_or cell (client ∷ rest) = last_or (some client) rest

abbrev pub pointers : String → Map String (List ℕ) → List ℕ
pointers name clients = or_nil (lookup name clients)

-- The pointer `p`, once for each of the clients that is the user's.
abbrev pub user_pointers : String → ℕ → List StratumClientStatus → List ℕ
user_pointers user p [] = []
user_pointers user p (client ∷ rest) =
    if client.username == user then p ∷ user_pointers user p rest else user_pointers user p rest

push-pointers :
    (name user : String) (p : ℕ) (clients : Map String (List ℕ))
    → pointers user (push name p clients)
      ≡ pointers user clients ++ (if name == user then p ∷ [] else [])
unfolding push
push-pointers name user p clients =
    rw (lookup-insert name user (pointers name clients ++ p ∷ []) clients)
      (elim (Bool-cases (name == user)) [
        | inl same ↦
            let e : name ≡ user = (string_eq.beq_iff name user).0 same in
            rw same (ap (λ n. pointers n clients ++ p ∷ []) e)
        | inr apart ↦ rw apart (sym (append-nil (pointers user clients)))
      ])

list_clients-last :
    (p : ℕ) (cs : List StratumClientStatus) (cell : Option StratumClientStatus)
    (clients : Map String (List ℕ))
    → (list_clients p cs cell clients).0 ≡ last_or cell cs
unfolding list_clients
list_clients-last p [] cell clients = refl
list_clients-last p (c ∷ cs) cell clients = list_clients-last p cs (some c) _

user_pointers-cons :
    (user : String) (p : ℕ) (c : StratumClientStatus) (cs : List StratumClientStatus)
    → (if c.username == user then p ∷ [] else []) ++ user_pointers user p cs
      ≡ user_pointers user p (c ∷ cs)
user_pointers-cons user p c cs = elim (Bool-cases (c.username == user)) [
  | inl same ↦ rw same refl
  | inr apart ↦ rw apart refl
]

list_clients-pointers :
    (user : String) (p : ℕ) (cs : List StratumClientStatus) (cell : Option StratumClientStatus)
    (clients : Map String (List ℕ))
    → pointers user (list_clients p cs cell clients).1
      ≡ pointers user clients ++ user_pointers user p cs
unfolding list_clients
list_clients-pointers user p [] cell clients = sym (append-nil (pointers user clients))
list_clients-pointers user p (c ∷ cs) cell clients =
    list_clients-pointers user p cs (some c) (push c.username p clients)
    ∙ ap (λ ps. ps ++ user_pointers user p cs) (push-pointers c.username user p clients)
    ∙ append_assoc (pointers user clients) _ (user_pointers user p cs)
    ∙ ap (λ ps. pointers user clients ++ ps) (user_pointers-cons user p c cs)

module _ {Raw : Type 0} (decode : Raw → Option (List StratumClientStatus)) where
  abbrev pub last_client : Bytes × Raw → Option StratumClientStatus
  last_client entry = last_or none (clients_in decode (decode entry.1))

  -- For every server in turn its number, once for each of its clients that is the user's.
  abbrev pub expected_pointers : String → ℕ → List (Bytes × Raw) → List ℕ
  expected_pointers user p [] = []
  expected_pointers user p (entry ∷ rest) =
      user_pointers user p (clients_in decode (decode entry.1))
      ++ expected_pointers user (suc p) rest

  list_stratums-last :
      (p : ℕ) (raws : List (Bytes × Raw)) (clients : Map String (List ℕ))
      → (list_stratums decode p raws clients).0 ≡ map last_client raws
  unfolding list_stratums
  list_stratums-last p [] clients = refl
  list_stratums-last p (entry ∷ raws) clients =
      let cs = clients_in decode (decode entry.1) in
      let rest = list_stratums-last (suc p) raws (list_clients p cs none clients).1 in
      ap (λ cell. cell ∷ (list_stratums decode (suc p) raws (list_clients p cs none clients).1).0)
        (list_clients-last p cs none clients)
      ∙ ap (λ heap. last_client entry ∷ heap) rest

  list_stratums-pointers :
      (user : String) (p : ℕ) (raws : List (Bytes × Raw)) (clients : Map String (List ℕ))
      → pointers user (list_stratums decode p raws clients).1
        ≡ pointers user clients ++ expected_pointers user p raws
  unfolding list_stratums
  list_stratums-pointers user p [] clients = sym (append-nil (pointers user clients))
  list_stratums-pointers user p (entry ∷ raws) clients =
      let cs = clients_in decode (decode entry.1) in
      list_stratums-pointers user (suc p) raws (list_clients p cs none clients).1
      ∙ ap (λ ps. ps ++ expected_pointers user (suc p) raws)
          (list_clients-pointers user p cs none clients)
      ∙ append_assoc (pointers user clients) _ _

  -- After any update WatchStratum lists for a user, server by server, as many pointers as the server
  -- reports clients of that user, and all of them are to the one cell of the server's loop, which
  -- holds the last of the server's clients, whosever it is.
  pub watch_stratum-last :
      (u : ServiceStatusUpdate Raw) (s : Stratums Raw)
      → ((watch_stratum decode u s).heap ≡ map last_client (watch_stratum decode u s).stratums)
        × ((user : String)
            → pointers user (watch_stratum decode u s).stratum_clients
              ≡ expected_pointers user 0 (watch_stratum decode u s).stratums)
  unfolding watch_stratum lookup
  watch_stratum-last u s = (
    list_stratums-last 0 _ [],
    λ user. list_stratums-pointers user 0 (watch_stratum decode u s).stratums [],
  )
