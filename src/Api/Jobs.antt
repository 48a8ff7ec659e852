-- ===== src/Api/Jobs.antt =====
-- internal/api/job_targets.go and the guards of createJob in internal/api/jobs.go.
use grex.Base.{
  ℕ, Bool, true, false, not, List, [], ◌∷◌, Option, none, some, Str, text, str_eq, if◌then◌else◌,
  keep, map, ◌≡◌, refl, arith, ◌↔◌, ◌&&◌,
}
use grex.Fleet.Types.{Agent}
use grex.Fleet.View.{supervisor_managed}
use grex.Persistence.Jobs.{get_job, create_job-get_job, Job, planned_job}
use grex.Persistence

abbrev pub rejection_reason : Str
rejection_reason = text "not supervisor_managed"

pub record RejectedTarget : Type 0 where
  pub instance_uid : Str
  pub reason : Str

pub record Partition : Type 0 where
  pub accepted : List Str
  pub rejected : List RejectedTarget

unfoldable pub partition_job_targets : List Agent → Partition
partition_job_targets [] = record { accepted = []; rejected = [] }
partition_job_targets (a ∷ rest) =
    let p = partition_job_targets rest in
    if supervisor_managed a then record p { accepted = a.instance_uid ∷ p.accepted } else record p {
      rejected = record { instance_uid = a.instance_uid; reason = rejection_reason } ∷ p.rejected;
    }

-- Every matched agent is targeted or rejected: the accepted ids are those of the agents that a
-- supervisor manages, the rejected ids those of the others, each in the order of the list.
pub partition_job_targets_lem :
    (agents : List Agent)
    → ((partition_job_targets agents).accepted
        ≡ map (λ a. a.instance_uid) (keep supervisor_managed agents))
      × (map (λ t. t.instance_uid) (partition_job_targets agents).rejected
          ≡ map (λ a. a.instance_uid) (keep (λ a. not (supervisor_managed a)) agents))
unfolding partition_job_targets
partition_job_targets_lem [] = (refl, refl)
partition_job_targets_lem (a ∷ rest) = ground (arith, partition_job_targets_lem rest)

-- The body of a request for a job. The configuration of the action is opaque text.
pub record CreateJobRequest : Type 0 where
  pub filter : Str
  pub action : Str
  pub action_config : Str
  pub submitted_by : Str

-- The statuses that the handler answers with.
pub data JobReply : Type 0 where
  created service_unavailable malformed_body filter_required action_required submitted_by_required
        create_failed :
      JobReply

abbrev pub job_queued : Bool → JobReply
job_queued true = created
job_queued false = create_failed

unfoldable pub job_guards : CreateJobRequest → Option JobReply
job_guards req =
    if str_eq req.filter []
    then some filter_required
    else if str_eq req.action []
    then some action_required
    else if str_eq req.submitted_by []
    then some submitted_by_required
    else none

abbrev pub job_of : CreateJobRequest → Job
job_of req = record {
  id = [];
  filter = req.filter;
  action = req.action;
  action_config = req.action_config;
  status = [];
  target_mode = none;
  submitted_by = req.submitted_by;
  created_at = 0;
  armed_at = none;
  dispatch_at = none;
  cancelled_at = none;
}

-- The call of the store, which inserts a row if the database is reached.
abbrev pub queue_job : Bool → Str → ℕ → List Job → CreateJobRequest → List Job × JobReply
queue_job false id now jobs req = (jobs, create_failed)
queue_job true id now jobs req = ((Persistence.Jobs.create_job id now jobs (job_of req)).0, created)

abbrev pub guarded_job :
    Option JobReply → Bool → Str → ℕ → List Job → CreateJobRequest → List Job × JobReply
guarded_job (some refusal) reached id now jobs req = (jobs, refusal)
guarded_job none reached id now jobs req = queue_job reached id now jobs req

-- createJob: `configured` says whether there is a job queue, `body` is the decoded body or `none`
-- if it does not decode.
unfoldable pub create_job :
    Bool → Bool → Str → ℕ → Option CreateJobRequest → List Job → List Job × JobReply
create_job false reached id now body jobs = (jobs, service_unavailable)
create_job true reached id now none jobs = (jobs, malformed_body)
create_job true reached id now (some req) jobs =
    guarded_job (job_guards req) reached id now jobs req

-- The row that a request makes.
abbrev pub planned_of : Str → ℕ → CreateJobRequest → Job
planned_of id now req = planned_job id now (job_of req)

abbrev pub is_complete : CreateJobRequest → Bool
is_complete req =
    not (str_eq req.filter []) && not (str_eq req.action []) && not (str_eq req.submitted_by [])

-- A request that decodes, under an id that no job has, creates its planned job exactly if its
-- three required fields are not empty and the database is reached, and is answered with `created`
-- exactly then; in every other case no job is changed.
pub create_job_lem :
    (reached : Bool) (id j : Str) (now : ℕ) (req : CreateJobRequest) (jobs : List Job)
    → get_job id jobs ≡ none
    → (get_job j (create_job true reached id now (some req) jobs).0 ≡ (
        if is_complete req && reached && str_eq id j
        then some (planned_of id now req)
        else get_job j jobs))
      × (((create_job true reached id now (some req) jobs).1 ≡ created)
          ↔ ((is_complete req && reached) ≡ true))
unfolding create_job job_guards
create_job_lem true id j now req jobs fresh =
    ground (arith, create_job-get_job id j now jobs (job_of req))
create_job_lem false id j now req jobs fresh = ground arith
