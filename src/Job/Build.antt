-- ===== src/Job/Build.antt =====
-- cmd/ngstratum/job.go: jobs from block templates.
pub mod Version
pub mod NoMain
use Prim.Native.Nat.{bit_or}
use ngpool.Prelude.{
  ℕ, zero, suc, ◌+◌, ◌*◌, ◌^◌, ◌%◌, ◌==◌, Bool, true, false, String, Option, none, some, List, [],
  ◌∷◌, ◌++◌, if◌then◌else◌, length, map,
}
use ngpool.Prelude.Map.{Map, Eq, insert, lookup, string_eq}
use text.Mathlib.Text.{◌==◌ as str_eq}
use ngpool.Prelude.Run.{Run, ok, err, panic, ◌>>=◌, or_err, or_panic}
use ngpool.Bytes.{Bytes, le32, hex_bytes, reverse_bytes}
use ngpool.Config.{ChainConfig, Algo}
use ngpool.Merkle.{merkle_root}
use ngpool.Merkle.Aux.{aux_merkle_branch, fill_slots}
use ngpool.Template.{
  Deps, BlockTemplate, get_target, template_branch, template_root, create_coinbase,
  create_coinbase_split,
}
use ngpool.Job.{Job, MainChainJob, AuxChainJob}
use ngpool.Job.Slots.{u32, Slots, AuxChain, merkle_slots}
use ngpool.Job.Build.Version.{set_algo_version}

-- A hexadecimal field, decoded and reversed.
abbrev reversed_field : String → Bytes → Run Bytes
reversed_field message s = or_err message (hex_bytes s) >>= λ b. ok (reverse_bytes b)

unfoldable decode_transactions : List Bytes → Run (List Bytes)
decode_transactions [] = ok []
decode_transactions (t ∷ raws) = do
  decoded ← or_err "Invalid data from txn" (hex_bytes t)
  rest ← decode_transactions raws
  ok (decoded ∷ rest)

module _ (deps : Deps) where
  unfoldable pub new_main_chain_job : BlockTemplate → ChainConfig → Algo → Run MainChainJob
  unfolding set_algo_version decode_transactions
  new_main_chain_job tmpl config algo = do
    target ← get_target deps tmpl
    prev_block_hash ← reversed_field "Invalid PreviousBlockhash" tmpl.previous_block_hash
    bits ← reversed_field "Invalid bits" tmpl.bits
    transactions ← decode_transactions (map (λ t. t.raw) tmpl.transactions)
    branch ← template_branch deps tmpl
    ok (record {
      currency_config = config;
      subsidy = tmpl.coinbase_value;
      height = tmpl.height;
      bits = bits;
      time = le32 (tmpl.cur_time % u32);
      version = le32 (set_algo_version (tmpl.version % u32) config algo);
      prev_block_hash = prev_block_hash;
      coinbase1 = [];
      coinbase2 = [];
      merkle_branch = branch;
      target = target;
      transactions = transactions;
      clean_jobs = true;
    })

  -- The version with the flag of a merged-mined block and the chain id.
  abbrev aux_version : BlockTemplate → ℕ
  aux_version t = bit_or (bit_or (t.version % u32) (2 ^ 8)) ((t.chain_id % u32) * 2 ^ 16 % u32)

  unfoldable pub new_aux_chain_job : BlockTemplate → ChainConfig → Algo → Run AuxChainJob
  unfolding set_algo_version decode_transactions
  new_aux_chain_job tmpl config algo = do
    target ← get_target deps tmpl
    prev_block_hash ← reversed_field "Invalid PreviousBlockhash" tmpl.previous_block_hash
    coinbase ← create_coinbase deps tmpl config []
    let coinbase_hash = deps.sha256d coinbase
    root ← template_root deps tmpl coinbase_hash
    bits ← reversed_field "Invalid bits" tmpl.bits
    let header =
        le32 (set_algo_version (aux_version tmpl) config algo)
        ++ (prev_block_hash
            ++ (root ++ (le32 (tmpl.cur_time % u32) ++ (bits ++ 0 ∷ 0 ∷ 0 ∷ 0 ∷ []))))
    header_hash ← or_err "NewHash" (deps.new_hash (deps.sha256d header))
    transactions ← decode_transactions (map (λ t. t.raw) tmpl.transactions)
    if tmpl.chain_id == 0
        then err "Null chainid"
        else ok (record {
          currency_config = config;
          subsidy = tmpl.coinbase_value;
          height = tmpl.height;
          header_hash = header_hash;
          block_header = header;
          chain_id = tmpl.chain_id;
          blockchain_merkle_branch = [];
          blockchain_merkle_mask = 0;
          transactions = transactions;
          coinbase = coinbase;
          coinbase_hash = coinbase_hash;
          target = target;
        })

pub record TemplateKey : Type 0 where
  pub algo : String
  pub currency : String
  pub template_type : String

-- The job under construction, and the main chain's template once it was met.
pub record Draft : Type 0 where
  pub main : Option (MainChainJob × BlockTemplate)
  pub heights : Map String ℕ
  pub aux_chains : List AuxChainJob

abbrev by_type : String → Run Draft → Run Draft → Run Draft
by_type template_type aux main =
    if str_eq template_type "getblocktemplate_aux"
    then aux
    else if str_eq template_type "getblocktemplate"
    then main
    else err "Unrecognized TemplateType"

module _ (deps : Deps) (unmarshal : Bytes → Option BlockTemplate)
    (currencies : Map String ChainConfig) where
  add_aux : BlockTemplate → ChainConfig → Algo → Draft → Run Draft
  add_aux tmpl config algo d = do
    job ← new_aux_chain_job deps tmpl config algo
    ok (record d {
      heights = insert config.code job.height d.heights;
      aux_chains = d.aux_chains ++ job ∷ [];
    })

  add_main : BlockTemplate → ChainConfig → Algo → Draft → Run Draft
  add_main tmpl config algo d = elim d.main [
    | some m ↦ err "You can only have one base currency template"
    | none ↦ do
      job ← new_main_chain_job deps tmpl config algo
      ok (record d { main = some (job, tmpl); heights = insert config.code job.height d.heights })
  ]

  add_template : TemplateKey → Bytes → Algo → Draft → Run Draft
  unfolding add_aux add_main
  add_template key raw algo d = do
    tmpl ← or_err "Unable to deserialize template" (unmarshal raw)
    config ← or_err "No currency config" (lookup key.currency currencies)
    by_type key.template_type (add_aux tmpl config algo d) (add_main tmpl config algo d)

  -- The loop over the templates, in the order in which the map yields them.
  unfoldable pub add_templates : List (TemplateKey × Bytes) → Algo → Draft → Run Draft
  unfolding add_template
  add_templates [] algo d = ok d
  add_templates ((key, raw) ∷ rest) algo d =
      add_template key raw algo d >>= λ d'. add_templates rest algo d'

-- The loop that gives each chain its branch and mask. After its first round the empty slots hold
-- zeros, in the table itself.
module _ (deps : Deps) where
  unfoldable set_branches : Slots → List AuxChainJob → Run (List AuxChainJob)
  set_branches base [] = ok []
  set_branches base (mj ∷ chains) = do
    (branch, mask) ← aux_merkle_branch deps.sha256d base mj.header_hash
    rest ← set_branches base chains
    ok (record mj { blockchain_merkle_branch = branch; blockchain_merkle_mask = mask } ∷ rest)

  -- The merged-mining data of the main chain's coinbase.
  unfoldable mm_coinbase : ℕ → Slots → List AuxChainJob → Run Bytes
  mm_coinbase size base [] = ok []
  mm_coinbase size base (mj ∷ []) = ok (
      0xfa ∷ 0xbe ∷ b'm' ∷ b'm' ∷ []
      ++ (reverse_bytes mj.header_hash ++ (le32 (size % u32) ++ le32 0)))
  mm_coinbase size base (mj ∷ chains) = do
    root ← merkle_root deps.sha256d (fill_slots base)
    ok (0xfa ∷ 0xbe ∷ b'm' ∷ b'm' ∷ [] ++ (reverse_bytes root ++ (le32 (size % u32) ++ le32 0)))

  unfoldable pub finish_job : Algo → Draft → Run Job
  unfolding set_branches mm_coinbase
  finish_job algo d = do
    (main, tmpl) ← or_err "Must have a main chain template" d.main
    (size, base) ← merkle_slots (
        map (λ (mj : AuxChainJob). record { chain_id = mj.chain_id; header_hash = mj.header_hash })
          d.aux_chains)
    aux_chains ← set_branches base d.aux_chains
    extra ← mm_coinbase size base aux_chains
    (coinbase1, coinbase2) ← create_coinbase_split deps tmpl main.currency_config extra
    ok (record {
      main = record main { coinbase1 = coinbase1; coinbase2 = coinbase2 };
      heights = d.heights;
      aux_chains = aux_chains;
      algo = algo;
    })

module _ (deps : Deps) (unmarshal : Bytes → Option BlockTemplate)
    (currencies : Map String ChainConfig) where
  -- NewJobFromTemplates
  unfoldable pub new_job_from_templates : List (TemplateKey × Bytes) → Algo → Run Job
  unfolding add_templates finish_job
  new_job_from_templates templates algo = do
    d ←
        add_templates deps unmarshal currencies templates algo
          (record { main = none; heights = []; aux_chains = [] })
    finish_job deps algo d
