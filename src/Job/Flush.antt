-- ===== src/Job/Flush.antt =====
-- cmd/ngstratum/job.go: SetFlush, and cmd/ngstratum/stratum.go: listenTemplates.
pub mod Stale
pub mod Crash
use text.Mathlib.Text.{◌==◌ as str_eq}
use text.Mathlib.TextEquality.{eq_iff}
use ngpool.Prelude.{
  ℕ, ◌↔◌, arith, ◌≡◌, refl, Bool, true, false, String, Option, none, some, List, [], ◌∷◌, ◌++◌, ltb,
  ◌&&◌, if◌then◌else◌,
}
use ngpool.Prelude.Map.{Map, Eq, ◌==◌, insert, lookup, string_eq}
use ngpool.Prelude.Run.{Run, ok, err, panic, out_of_fuel, ◌>>=◌}
use ngpool.Bytes.{Bytes}
use ngpool.Job.{Job, AuxChainJob}
use ngpool.Job.Build.{TemplateKey}

-- The dynamic value that SetFlush is given and returns: nil, a map of heights, or one height.
pub data LastFlush : Type 0 where
  nil : LastFlush
  heights : Map String ℕ → LastFlush
  height : ℕ → LastFlush

-- A missing currency reads as height 0.
abbrev pub height_of : Map String ℕ → String → ℕ
height_of prev code = elim (lookup code prev) [ none ↦ 0 | some h ↦ h ]

pub record Flush : Type 0 where
  pub ignore : Bool
  pub last : LastFlush
  pub job : Job

abbrev with_clean : Job → Job
with_clean j = record j { main = record j.main { clean_jobs = true } }

aux_flush : Map String ℕ → Job → List AuxChainJob → Flush
aux_flush prev j [] = record { ignore = false; last = heights j.heights; job = j }
aux_flush prev j (mj ∷ chains) =
    if mj.currency_config.flush_aux && ltb (height_of prev mj.currency_config.code) mj.height
    then record { ignore = false; last = heights j.heights; job = with_clean j }
    else aux_flush prev j chains

unfoldable pub set_flush : Job → LastFlush → Flush
unfolding aux_flush
set_flush j nil = record { ignore = false; last = heights j.heights; job = j }
set_flush j (height h) = record { ignore = false; last = heights j.heights; job = j }
set_flush j (heights prev) =
    let before = height_of prev j.main.currency_config.code in
    if ltb before j.main.height
    then record { ignore = false; last = height j.main.height; job = with_clean j }
    else if ltb j.main.height before
    then record { ignore = true; last = nil; job = j }
    else aux_flush prev j j.aux_chains

abbrev key_beq : TemplateKey → TemplateKey → Bool
key_beq a b =
    str_eq a.algo b.algo && str_eq a.currency b.currency && str_eq a.template_type b.template_type

pub key_beq_iff : (a b : TemplateKey) → (key_beq a b ≡ true) ↔ (a ≡ b)
key_beq_iff a b = (there, back)
  where
    there : key_beq a b ≡ true → a ≡ b
    there h = ground (
      arith,
      eq_iff a.algo b.algo,
      eq_iff a.currency b.currency,
      eq_iff a.template_type b.template_type,
    )

    back : a ≡ b → key_beq a b ≡ true
    back h = ground (
      arith,
      eq_iff a.algo b.algo,
      eq_iff a.currency b.currency,
      eq_iff a.template_type b.template_type,
    )

instance abbrev pub key_eq : Eq TemplateKey
key_eq = record { beq = key_beq; beq_iff = key_beq_iff }

-- What listenTemplates keeps, and the jobs that it has handed to the broadcaster. The statement
-- `ignore, lastJobFlush := job.SetFlush(lastJobFlush)` declares a second `lastJobFlush`, so nothing
-- writes the first, which is the one that SetFlush is given.
pub record Listener : Type 0 where
  pub latest : Map TemplateKey Bytes
  pub last_job_flush : LastFlush
  pub last_job : Option Job
  pub casts : List Job

abbrev pub listening : Listener
listening = record { latest = []; last_job_flush = nil; last_job = none; casts = [] }

-- What a round does with the result of NewJobFromTemplates. SetFlush is called before the error is
-- tested: on an error the job is nil, and SetFlush reads its heights.
heard : Listener → Run Job → Run Listener
unfolding set_flush
heard st (ok job) =
    let f = set_flush job st.last_job_flush in
    if f.ignore
    then ok st
    else ok (record st { last_job = some f.job; casts = st.casts ++ f.job ∷ [] })
heard st (err e) = panic
heard st panic = panic
heard st out_of_fuel = out_of_fuel

unfoldable pub listen_template :
    (List (TemplateKey × Bytes) → Run Job) → TemplateKey → Bytes → Listener → Run Listener
unfolding heard
listen_template new_job key raw st =
    let latest = insert key raw st.latest in heard (record st { latest = latest }) (new_job latest)

unfoldable pub listen_templates :
    (List (TemplateKey × Bytes) → Run Job) → List (TemplateKey × Bytes) → Listener → Run Listener
listen_templates new_job [] st = ok st
listen_templates new_job ((key, raw) ∷ rest) st =
    listen_template new_job key raw st >>= listen_templates new_job rest
