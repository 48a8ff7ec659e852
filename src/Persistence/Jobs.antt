-- ===== src/Persistence/Jobs.antt =====
-- The jobs table of internal/persistence/jobs.go. Ids and creation times are the database's
-- defaults, so they are arguments; a NULL column is `none`.
pub mod Targets
use grex.Base.{
  ℕ, List, [], ◌∷◌, ◌++◌, Option, none, some, Str, text, str_eq, if◌then◌else◌, ◌≡◌, refl, arith,
  str_eq_iff,
}

pub record Job : Type 0 where
  pub id : Str
  pub filter : Str
  pub action : Str
  pub action_config : Str
  pub status : Str
  pub target_mode : Option Str
  pub submitted_by : Str
  pub created_at : ℕ
  pub armed_at : Option ℕ
  pub dispatch_at : Option ℕ
  pub cancelled_at : Option ℕ

abbrev pub status_planned : Str
status_planned = text "planned"

abbrev pub or_empty_object : Str → Str
or_empty_object [] = text "{}"
or_empty_object (c ∷ cs) = c ∷ cs

-- The row that the INSERT makes of the four columns that it names and the defaults of the rest.
abbrev pub planned_job : Str → ℕ → Job → Job
planned_job id now job = record {
  id = id;
  filter = job.filter;
  action = job.action;
  action_config = or_empty_object job.action_config;
  status = status_planned;
  target_mode = none;
  submitted_by = job.submitted_by;
  created_at = now;
  armed_at = none;
  dispatch_at = none;
  cancelled_at = none;
}

-- The table in the order of creation, and the job that RETURNING reads back.
unfoldable pub create_job : Str → ℕ → List Job → Job → List Job × Job
create_job id now jobs job =
    let created = planned_job id now job in (jobs ++ (created ∷ []), created)

unfoldable pub get_job : Str → List Job → Option Job
get_job id [] = none
get_job id (j ∷ js) = if str_eq j.id id then some j else get_job id js

unfoldable pub list_jobs : List Job → List Job
list_jobs jobs = jobs

-- A job created under an id that no job has is read back by that id as it was returned, planned
-- and without a target mode whatever the given job says, and every other job is read as before.
pub create_job-get_job :
    (id j : Str) (now : ℕ) (jobs : List Job) (job : Job)
    → get_job id jobs ≡ none
    → get_job j (create_job id now jobs job).0
      ≡ (if str_eq id j then some (planned_job id now job) else get_job j jobs)
unfolding create_job get_job
create_job-get_job id j now [] job fresh = refl
create_job-get_job id j now (k ∷ ks) job fresh =
    ground (arith, create_job-get_job id j now ks job, str_eq_iff id j)
