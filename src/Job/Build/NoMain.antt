-- ===== src/Job/Build/NoMain.antt =====
-- cmd/ngstratum/job.go: there is no job without a main chain's template.
use ngpool.Prelude.{◌≡◌, ◌≢◌, ◌∙◌, false, String, Option, none, List, [], ◌∷◌, All, arith}
use ngpool.Prelude.Map.{Map, lookup, string_eq}
use text.Mathlib.Text.{◌==◌ as str_eq}
use ngpool.Prelude.Run.{Run, ok, >>=-eq-ok, or_err}
use ngpool.Bytes.{Bytes}
use ngpool.Config.{ChainConfig, Algo}
use ngpool.Template.{Deps, BlockTemplate}
use ngpool.Job.{Job}
use ngpool.Job.Build.{
  TemplateKey, Draft, by_type, add_aux, add_template, add_templates, finish_job, new_aux_chain_job,
  new_job_from_templates,
}

module _ (deps : Deps) (unmarshal : Bytes → Option BlockTemplate)
    (currencies : Map String ChainConfig) where
  -- A template that is not the main chain's.
  abbrev pub IsAux : TemplateKey × Bytes → Type 0
  IsAux t = str_eq t.0.template_type "getblocktemplate" ≡ false

  add_aux-main :
      (tmpl : BlockTemplate) (config : ChainConfig) (algo : Algo) (d d' : Draft)
      → add_aux deps unmarshal currencies tmpl config algo d ≡ ok d'
      → d'.main ≡ d.main
  unfolding add_aux
  add_aux-main tmpl config algo d d' e =
      let (job, p, q) = >>=-eq-ok (new_aux_chain_job deps tmpl config algo) _ e in ground arith

  by_type-aux :
      (t : String) (aux main : Run Draft) (d' : Draft)
      → str_eq t "getblocktemplate" ≡ false
      → by_type t aux main ≡ ok d'
      → aux ≡ ok d'
  by_type-aux t aux main d' h e = ground arith

  add_template-main :
      (key : TemplateKey) (raw : Bytes) (algo : Algo) (d d' : Draft)
      → IsAux (key, raw)
      → add_template deps unmarshal currencies key raw algo d ≡ ok d'
      → d'.main ≡ d.main
  unfolding add_template
  add_template-main key raw algo d d' h e =
      let (tmpl, _, next) =
        >>=-eq-ok (or_err "Unable to deserialize template" (unmarshal raw)) _ e in
      let (config, _, last) =
        >>=-eq-ok (or_err "No currency config" (lookup key.currency currencies)) _ next in
      add_aux-main tmpl config algo d d' (by_type-aux key.template_type _ _ d' h last)

  add_templates-main :
      (templates : List (TemplateKey × Bytes)) (algo : Algo) (d d' : Draft)
      → All IsAux templates
      → add_templates deps unmarshal currencies templates algo d ≡ ok d'
      → d'.main ≡ d.main
  unfolding add_templates
  add_templates-main [] algo d d' h e = ground arith
  add_templates-main ((key, raw) ∷ rest) algo d d' h e =
      let (mid, p, q) = >>=-eq-ok (add_template deps unmarshal currencies key raw algo d) _ e in
      add_templates-main rest algo mid d' h.1 q ∙ add_template-main key raw algo d mid h.0 p

  -- NewJobFromTemplates returns no job for templates of which none is a main chain's.
  pub new_job_from_templates-no-main :
      (templates : List (TemplateKey × Bytes)) (algo : Algo) (j : Job)
      → All IsAux templates
      → new_job_from_templates deps unmarshal currencies templates algo ≢ ok j
  unfolding new_job_from_templates finish_job
  new_job_from_templates-no-main templates algo j h e =
      let (d, p, q) =
        >>=-eq-ok
          (add_templates deps unmarshal currencies templates algo
            (record { main = none; heights = []; aux_chains = [] }))
          _ e in
      let missing = add_templates-main templates algo _ d h p in absurd (no-main d q missing)
    where
      no-main : (d : Draft) → finish_job deps algo d ≡ ok j → d.main ≡ none → ⊥
      no-main d q missing = ground arith
