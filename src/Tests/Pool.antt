-- ===== src/Tests/Pool.antt =====
-- Runs of the stratum server's code.
use ngpool.Prelude.{
  ◌*◌, ◌⊎◌, ℕ, suc, ◌+◌, ◌≡◌, ◌≢◌, ◌<◌, refl, true, false, Option, none, some, List, [], ◌∷◌, ◌++◌,
  arith, length, leb, if◌then◌else◌,
}
use ngpool.Prelude.Int.{pos}
use ngpool.Prelude.Map.{lookup, insert, string_eq, bytes_eq}
use ngpool.Prelude.Run.{Run, ok, err}
use ngpool.Bytes.{Bytes, split}
use ngpool.Window
use ngpool.Template.{Deps, BlockTemplate, extra_nonce_magic, create_coinbase, create_coinbase_split}
use ngpool.Template.Coinbase.{create_coinbase_split-join}
use ngpool.Job.{MainChainJob, Job, Checked, check_solves, main_solve}
use ngpool.Job.Solve.{coinbase_of, header_of, check_solves-main}
use ngpool.Job.Build.{TemplateKey}
use ngpool.Job.Flush.{Listener, height_of, listening, listen_template, listen_templates}
use ngpool.Job.Flush.Stale.{listen_templates-never-ignores}
use ngpool.Job.Flush.Crash.{new_job, listen_templates-first_aux}
use ngpool.Vardiff.{Tuner}
use ngpool.Tests.Numbers.{whole_ops}
use ngpool.Client.Messages.{error, MiningSubmit, get_key, stratum_error_duplicate}
use ngpool.Client.{Client, ClientJob, Share, new_client, send}
use ngpool.Client.Write.{wrote, submit, write_loop}
use ngpool.Client.Write.Submit.{submit-once}
use ngpool.Client.Write.Replay.{submit-no_blocks, submit-other_time}
use ngpool.Tests.Money.{sha}
use ngpool.Tests.Payouts.{bitcoin}

-- Every header hashes to the same number.
abbrev deps_of : ℕ → Deps
deps_of big = record {
  sha256d = λ b. 7 ∷ b;
  compact_to_big = λ n. pos n;
  spare = λ bytes. [];
  pay_to_addr_script = λ config. some (1 ∷ []);
  coinbase_script = λ height extra. some (height ∷ extra);
  serialize_coinbase = λ script value pk. script ++ pk;
  new_hash = λ b. some b;
  hash_to_big = λ b. big;
  write_var_int = λ n. n ∷ [];
}

abbrev deps : Deps
deps = deps_of 200

abbrev main_job : ℕ → MainChainJob
main_job height = record {
  currency_config = bitcoin;
  subsidy = 5000;
  height = height;
  bits = 1 ∷ [];
  time = 2 ∷ [];
  version = 3 ∷ [];
  prev_block_hash = 4 ∷ [];
  coinbase1 = 5 ∷ [];
  coinbase2 = 6 ∷ [];
  merkle_branch = [];
  target = pos 50;
  transactions = [];
  clean_jobs = false;
}

abbrev job_at : ℕ → Job
job_at height = record {
  main = main_job height;
  heights = ("BTC", height) ∷ [];
  aux_chains = [];
  algo = sha;
}

abbrev template : BlockTemplate
template = record {
  version = 1;
  previous_block_hash = [];
  transactions = [];
  coinbase_value = 5000;
  cur_time = 10;
  bits = [];
  height = 9;
  chain_id = 0;
}

halves : (r : Bytes × Bytes) × (create_coinbase_split deps template bitcoin (3 ∷ []) ≡ ok r)
unfolding create_coinbase_split split
halves = (_, refl)

create_coinbase_split-join_example :
    create_coinbase deps template bitcoin (3 ∷ [] ++ extra_nonce_magic)
    ≡ ok (halves.0.0 ++ (extra_nonce_magic ++ halves.0.1))
create_coinbase_split-join_example =
    create_coinbase_split-join deps template bitcoin (3 ∷ []) halves.0.0 halves.0.1 halves.1

check_solves-main_example :
    (c : Checked) × (check_solves deps (job_at 9) (8 ∷ []) (9 ∷ []) (some 100) ≡ ok c)
    × (c.valid_share ≡ leb 100 200)
    × (c.currencies ≡ "BTC" ∷ [])
    × (lookup "BTC" c.solves ≡ (
        if leb 200 50
        then some (
            main_solve deps
              (job_at 9)
              (header_of deps (job_at 9) (8 ∷ []) (9 ∷ []))
              (coinbase_of (job_at 9) (9 ∷ []))
              (deps.sha256d (coinbase_of (job_at 9) (9 ∷ [])))
              200)
        else none))
check_solves-main_example =
    check_solves-main deps (job_at 9) (8 ∷ []) (9 ∷ []) (some 100) 200 (_, _, refl, refl, refl) tt

newer_height : height_of (("BTC", 9) ∷ []) "BTC" < 12
unfolding lookup
newer_height = omega arith

abbrev main_key : TemplateKey
main_key = record { algo = "sha256d"; currency = "BTC"; template_type = "getblocktemplate" }

abbrev aux_key : TemplateKey
aux_key = record { algo = "sha256d"; currency = "DOGE"; template_type = "getblocktemplate_aux" }

-- A job's height is that of the latest template's first byte.
abbrev by_first_byte : List (TemplateKey × Bytes) → Run Job
by_first_byte ((_, h ∷ _) ∷ _) = ok (job_at h)
by_first_byte _ = err "no template"

abbrev heights_falling : List (TemplateKey × Bytes)
heights_falling = (main_key, 12 ∷ []) ∷ (main_key, 3 ∷ []) ∷ []

heard_all : (st : Listener) × (listen_templates by_first_byte heights_falling listening ≡ ok st)
unfolding listen_templates listen_template insert
heard_all = (_, refl)

listen_templates-never-ignores_example : length heard_all.0.casts ≡ 2
listen_templates-never-ignores_example =
    listen_templates-never-ignores by_first_byte heights_falling heard_all.0 heard_all.1

abbrev no_template : Bytes → Option BlockTemplate
no_template raw = some template

listen_templates-first_aux_example :
    listen_templates
      (new_job deps no_template (("BTC", bitcoin) ∷ []) sha)
      ((aux_key, []) ∷ (main_key, []) ∷ [])
      listening
    ≢ ok listening
listen_templates-first_aux_example =
    listen_templates-first_aux deps no_template (("BTC", bitcoin) ∷ []) sha aux_key []
      ((main_key, []) ∷ []) listening refl

-- The client has one job, whose share target is 100.
abbrev client_job : ClientJob
client_job = record { job = job_at 9; id = 1 ∷ []; difficulty = 1; submission_map = [] }

abbrev client : Client
client = record (new_client (7 ∷ [])) { job_book = (1 ∷ [], client_job) ∷ [] }

abbrev submission : MiningSubmit
submission = record {
  username = [];
  job_id = 1 ∷ [];
  extranonce2 = 1 ∷ [];
  time = 2 ∷ [];
  nonce = 3 ∷ [];
  id = some (pos 4);
}

abbrev tuner : Tuner
tuner = record { vardiff = record { target_submission_rate = 6; tiers = 1 ∷ [] }; ops = whole_ops }

accepted_once :
    (c : Client) × (submit deps ◌*◌ 50 submission client ≡ ok (c, true))
    × (length c.shares ≡ suc (length client.shares))
unfolding submit lookup check_solves Window.add Window.new_window
accepted_once = (_, refl, refl)

went_on :
    (c : Client) × (write_loop deps ◌*◌ (λ d. []) tuner (wrote true ∷ []) accepted_once.0
      ≡ ok (c, true))
unfolding write_loop
went_on = (_, refl)

submit-once_example :
    submit deps ◌*◌ 60 submission went_on.0
    ≡ ok (send (error (some (pos 4)) stratum_error_duplicate) went_on.0, true)
submit-once_example =
    submit-once deps ◌*◌ (λ d. []) tuner 50 60 (wrote true ∷ []) client accepted_once.0 went_on.0
      submission submission true accepted_once.1 accepted_once.2 went_on.1 (tt, tt) refl refl

known : lookup (1 ∷ []) client.job_book ≡ some client_job
unfolding lookup
known = refl

unseen : (key : Bytes) → lookup key client_job.submission_map ≡ none
unfolding lookup
unseen key = refl

-- A hash of 30 solves a block, whose target is 50.
refused_solve : (c : Client) × (submit (deps_of 30) ◌*◌ 50 submission client ≡ ok (c, true))
unfolding submit check_solves lookup
refused_solve = (_, refl)

submit-no_blocks_example :
    (refused_solve.0.shares ≡ client.shares)
    ⊎ ((share : Share) × (refused_solve.0.shares ≡ client.shares ++ share ∷ [])
        × (share.blocks ≡ []))
submit-no_blocks_example =
    submit-no_blocks (deps_of 30) ◌*◌ 50 client refused_solve.0 client_job submission true known
      refl tt refused_solve.1

has_room : client.share_window.head < length client.share_window.samples
unfolding Window.new_window
has_room = omega arith

submit-other_time_example :
    (c₁ : Client) × (c₂ : Client) × (submit deps ◌*◌ 50 submission client ≡ ok (c₁, true))
    × (submit deps ◌*◌ 60 (record submission { time = 9 ∷ [] }) c₁ ≡ ok (c₂, true))
    × (length c₂.shares ≡ length client.shares + 2)
submit-other_time_example =
    submit-other_time deps ◌*◌ 50 60 200 client client_job submission (9 ∷ []) known
      (unseen (get_key submission)) (unseen (get_key (record submission { time = 9 ∷ [] }))) refl
      (_, _, refl, refl, refl) tt (omega arith) has_room
