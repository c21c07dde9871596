-- ===== src/Job/Flush/Stale.antt =====
-- cmd/ngstratum/job.go and stratum.go: which jobs are ignored as stale.
use ngpool.Prelude.{
  ℕ, suc, ◌+◌, ◌<◌, ◌≡◌, refl, false, String, List, [], ◌∷◌, ltb, length, length-append, arith,
}
use ngpool.Prelude.Map.{Map, string_eq, insert}
use ngpool.Prelude.Run.{Run, ok, err, panic, out_of_fuel, >>=-eq-ok}
use ngpool.Bytes.{Bytes}
use ngpool.Job.{Job, AuxChainJob}
use ngpool.Job.Build.{TemplateKey}
use ngpool.Job.Flush.{
  nil, heights, height_of, set_flush, aux_flush, Listener, listening, heard, listen_template,
  listen_templates, key_eq,
}

aux_flush-keeps :
    (prev : Map String ℕ) (j : Job) (chains : List AuxChainJob)
    → (aux_flush prev j chains).ignore ≡ false
unfolding aux_flush
aux_flush-keeps prev j [] = refl
aux_flush-keeps prev j (mj ∷ chains) = ground (arith, aux_flush-keeps prev j chains)

-- Given the heights of an earlier job, SetFlush ignores a job exactly when its main chain's height
-- is below the earlier one.
set_flush-ignore :
    (j : Job) (prev : Map String ℕ)
    → (set_flush j (heights prev)).ignore
      ≡ ltb j.main.height (height_of prev j.main.currency_config.code)
unfolding set_flush
set_flush-ignore j prev = ground (arith, aux_flush-keeps prev j j.aux_chains)

-- After a job that was newer than the heights before it, SetFlush ignores no next job, however low
-- its height: what it returned for the newer job is one height, and not a map.
set_flush-forgets :
    (newer next : Job) (prev : Map String ℕ)
    → height_of prev newer.main.currency_config.code < newer.main.height
    → (set_flush next (set_flush newer (heights prev)).last).ignore ≡ false
unfolding set_flush
set_flush-forgets newer next prev h = ground arith

module _ (new_job : List (TemplateKey × Bytes) → Run Job) where
  heard-casts :
      (st st' : Listener) (r : Run Job)
      → st.last_job_flush ≡ nil
      → heard st r ≡ ok st'
      → (length st'.casts ≡ suc (length st.casts)) × (st'.last_job_flush ≡ nil)
  unfolding heard set_flush
  heard-casts st st' (ok job) n e = ground (arith, length-append st.casts (job ∷ []))
  heard-casts st st' (err m) n e = cc
  heard-casts st st' panic n e = cc
  heard-casts st st' out_of_fuel n e = cc

  -- A round from the nil value broadcasts one job, whatever heights it has.
  listen_template-casts :
      (key : TemplateKey) (raw : Bytes) (st st' : Listener)
      → st.last_job_flush ≡ nil
      → listen_template new_job key raw st ≡ ok st'
      → (length st'.casts ≡ suc (length st.casts)) × (st'.last_job_flush ≡ nil)
  unfolding listen_template set_flush
  listen_template-casts key raw st st' n e =
      heard-casts (record st { latest = insert key raw st.latest }) st'
        (new_job (insert key raw st.latest)) n e

  listen_templates-casts :
      (templates : List (TemplateKey × Bytes)) (st st' : Listener)
      → st.last_job_flush ≡ nil
      → listen_templates new_job templates st ≡ ok st'
      → length st'.casts ≡ length st.casts + length templates
  unfolding listen_templates
  listen_templates-casts [] st st' n e = ground arith
  listen_templates-casts ((key, raw) ∷ rest) st st' n e =
      let (mid, p, q) = >>=-eq-ok (listen_template new_job key raw st) _ e in
      let one = listen_template-casts key raw st mid n p in
      omega (arith, listen_templates-casts rest mid st' one.1 q, one.0)

  -- From its start listenTemplates broadcasts a job for every template that arrives: as long as it
  -- runs, none is ignored as stale, whatever the heights.
  pub listen_templates-never-ignores :
      (templates : List (TemplateKey × Bytes)) (st : Listener)
      → listen_templates new_job templates listening ≡ ok st
      → length st.casts ≡ length templates
  listen_templates-never-ignores templates st e =
      omega (arith, listen_templates-casts templates listening st refl e)
