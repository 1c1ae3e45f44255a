-- ===== src/Tests/Submission.antt =====
-- A saved pipeline of one block with a short code, submitted as a run.
use psae_monorepo.Prelude.{
  ℕ, String, ◌≡◌, refl, sym, ◌∙◌, ==_iff, ◌↔◌, ◌⊎◌, none, some, [], ◌∷◌, Memᴰ, ◌==◌, if◌then◌else◌,
  contains,
}
use mathlib.Core.List.Memᴰ
use psae_monorepo.Dict
use psae_monorepo.Types.{Pipeline}
use psae_monorepo.ShortCodes.{
  resolve_short_codes, has_short_id, resolve_blocks, resolve_block, resolve_inputs, resolve_input,
  resolve_id, resolve, resolve_from, is_short_code,
}
use psae_monorepo.Validate.Spec.{IsSound}
use psae_monorepo.Validate.Checks.{
  errors_of, result_of, duplicate_errors, missing_errors, cycle_errors, before_cycle, after_cycle,
  validate_pipeline,
}
use psae_monorepo.Validate.Cycle.{
  deps_of, enter, leave, visit_dep, scan, finish, dfs, visit_root, roots, whiten, cycle_of, link,
  find_cycle, run_search, adjacency, pop,
}
use psae_monorepo.Repositories.Database.{Database}
use psae_monorepo.Repositories.Database.InMemory.{in_memory}
use psae_monorepo.Repositories.Acl.{
  Visibility, Share, same_share, same_id, Tables, get_by_id_for_user, create, get_by_id, has_id,
  permit, first, share_of, is_public,
}
use psae_monorepo.Repositories.Acl.Access.{IsKeyed}
use psae_monorepo.Repositories.Runs.{RunStatus, Run, run_columns}
use psae_monorepo.Repositories.Pipelines.{
  SavedPipeline, pipeline_columns, PipelineTables, get_pipeline_for_user,
}
use psae_monorepo.Api.Submit.{
  SubmitBody, Parsed, malformed, document, submit, accepted, refused, load_source, submit_source,
  resolve_and_store, check_and_store, store_run, new_run, truthy, or_else,
}
use psae_monorepo.Api.Submit.Accepted.{submit-run}
use psae_monorepo.Api.Submit.Saved.{IsSubmitted, submit-IsSubmitted}

abbrev pipelines_db : Database SavedPipeline (same_id pipeline_columns)
pipelines_db = in_memory (same_id pipeline_columns)

abbrev runs_db : Database Run (same_id run_columns)
runs_db = in_memory (same_id run_columns)

abbrev shares_db : Database Share same_share
shares_db = in_memory same_share

abbrev given : Pipeline ℕ
given = record {
  id = none;
  name = "flood";
  version = "1";
  description = none;
  blocks = record { id = "@a"; name = "load"; inputs = []; args = [] } ∷ [];
}

abbrev parse : String → Parsed ℕ
parse text = if text == "flood.yaml" then document given else malformed "unexpected end"

abbrev print : Pipeline ℕ → String
print p = p.name

abbrev uuid : ℕ → String
uuid n = "u"

abbrev saved : SavedPipeline
saved = record {
  id = "p";
  owner_id = "ann";
  name = "Flood";
  description = none;
  version = "1";
  yaml = "flood.yaml";
  visibility = Visibility.private;
  created_at = 1;
  updated_at = 1;
}

abbrev pipelines : PipelineTables pipelines_db shares_db
pipelines = record { rows = saved ∷ []; shares = [] }

abbrev no_runs : Tables run_columns runs_db shares_db
no_runs = record { rows = []; shares = [] }

abbrev body : SubmitBody
body = record { pipeline_id = some "p"; yaml = none; name = none }

abbrev run : Run
run = record {
  id = "r";
  pipeline_id = some "p";
  owner_id = "ann";
  name = some "Flood";
  yaml = "flood";
  status = RunStatus.queued;
  error = none;
  visibility = Visibility.private;
  started_at = none;
  finished_at = none;
  created_at = 5;
  updated_at = 5;
}

abbrev one_run : Tables run_columns runs_db shares_db
one_run = record { rows = run ∷ []; shares = [] }

handler : Unit {0}
unfolding submit load_source submit_source resolve_and_store check_and_store store_run new_run
    truthy or_else get_by_id_for_user get_by_id has_id permit first share_of is_public create
    resolve_short_codes has_short_id resolve_blocks resolve_block resolve_inputs resolve_input
    resolve_id resolve resolve_from is_short_code validate_pipeline errors_of result_of
    duplicate_errors missing_errors cycle_errors before_cycle after_cycle contains deps_of enter
    leave visit_dep scan finish dfs visit_root roots whiten cycle_of link find_cycle run_search
    adjacency pop Dict.get Dict.set Dict.has
handler = tt

submit_run :
    submit parse print uuid pipelines_db runs_db shares_db "ann" "r" 5 body pipelines no_runs
    ≡ accepted run one_run
unfolding handler
submit_run = refl

hidden_run :
    submit parse print uuid pipelines_db runs_db shares_db "bob" "r" 5 body pipelines no_runs
    ≡ refused 404 "Pipeline not found"
unfolding handler
hidden_run = refl

no_runs-IsKeyed : IsKeyed run_columns runs_db shares_db no_runs
no_runs-IsKeyed r s h k e = absurd (Memᴰ.not-nil h)

abbrev no_text : String
no_text = ""

pipelines-IsKeyed : IsKeyed pipeline_columns pipelines_db shares_db pipelines
pipelines-IsKeyed r s h k e = Memᴰ.eq_of_singleton h ∙ sym (Memᴰ.eq_of_singleton k)

p-ne-empty : ¬ ("p" ≡ no_text)
p-ne-empty e = let t = (==_iff "p" no_text).1 e in cc

submit-IsSubmitted_example :
    IsSubmitted parse print uuid pipelines_db runs_db shares_db "ann" "p" pipelines run
submit-IsSubmitted_example =
    submit-IsSubmitted parse print uuid pipelines_db runs_db shares_db "ann" "r" "p" 5 body
      pipelines no_runs one_run run pipelines-IsKeyed refl p-ne-empty submit_run

submit-run_example :
    (get_by_id_for_user run_columns runs_db shares_db "r" "ann" one_run ≡ some run)
    × (run.owner_id ≡ "ann")
    × (run.status ≡ RunStatus.queued)
    × (run.visibility ≡ Visibility.private)
    × ((p : Pipeline ℕ) × IsSound p.blocks × (run.yaml ≡ print p))
    × ((r : Run) → Memᴰ r one_run.rows ↔ ((r ≡ run) ⊎ Memᴰ r no_runs.rows))
submit-run_example =
    submit-run parse print uuid pipelines_db runs_db shares_db "ann" "r" 5 body pipelines no_runs
      one_run run no_runs-IsKeyed submit_run

named : truthy body.pipeline_id ≡ some "p"
unfolding handler
named = refl

hidden : get_pipeline_for_user pipelines_db shares_db "p" "bob" pipelines ≡ none
unfolding handler
hidden = refl
