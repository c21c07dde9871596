-- ===== src/Job/Flush/Crash.antt =====
-- cmd/ngstratum/stratum.go: listenTemplates on templates that make no job.
use ngpool.Prelude.{◌≡◌, ◌≢◌, refl, String, Option, List, [], ◌∷◌}
use ngpool.Prelude.Map.{Map, insert}
use ngpool.Prelude.Run.{Run, ok, err, panic, out_of_fuel, >>=-eq-ok}
use ngpool.Bytes.{Bytes}
use ngpool.Config.{ChainConfig, Algo}
use ngpool.Template.{Deps, BlockTemplate}
use ngpool.Job.{Job}
use ngpool.Job.Build.{TemplateKey, new_job_from_templates}
use ngpool.Job.Build.NoMain.{IsAux, new_job_from_templates-no-main}
use ngpool.Job.Flush.{Listener, listening, heard, key_eq, listen_template, listen_templates}

heard-ok : (st st' : Listener) (r : Run Job) → heard st r ≡ ok st' → (j : Job) × (r ≡ ok j)
unfolding heard
heard-ok st st' (ok j) e = (j, refl)
heard-ok st st' (err m) e = cc
heard-ok st st' panic e = cc
heard-ok st st' out_of_fuel e = cc

module _ (deps : Deps) (unmarshal : Bytes → Option BlockTemplate)
    (currencies : Map String ChainConfig) (algo : Algo) where
  abbrev pub new_job : List (TemplateKey × Bytes) → Run Job
  new_job templates = new_job_from_templates deps unmarshal currencies templates algo

  -- Where the first template to arrive is not the main chain's, listenTemplates does not survive it,
  -- whatever follows.
  pub listen_templates-first_aux :
      (key : TemplateKey) (raw : Bytes) (rest : List (TemplateKey × Bytes)) (st : Listener)
      → IsAux deps unmarshal currencies (key, raw)
      → listen_templates new_job ((key, raw) ∷ rest) listening ≢ ok st
  unfolding listen_templates listen_template insert
  listen_templates-first_aux key raw rest st h e =
      let (mid, p, q) = >>=-eq-ok (listen_template new_job key raw listening) _ e in
      let (j, made) =
        heard-ok (record listening { latest = (key, raw) ∷ [] }) mid (new_job ((key, raw) ∷ []))
          p in
      new_job_from_templates-no-main deps unmarshal currencies ((key, raw) ∷ []) algo j (h, tt) made
