-- ===== src/Persistence/Jobs/Targets.antt =====
-- The job_targets table of internal/persistence/jobs.go. Its ids are a sequence: the next one is an
-- argument, and PostgreSQL numbers and returns the rows of one INSERT in the order of its arrays.
-- That the status is a known one, and that the job exists, are constraints of the schema.
use grex.Base.{
  ℕ, suc, ◌≡◌, refl, ap, ◌∙◌, List, [], ◌∷◌, ◌++◌, Option, none, Str, str_eq, map, keep,
  if◌then◌else◌, arith,
}

pub record JobTarget : Type 0 where
  pub id : ℕ
  pub job_id : Str
  pub instance_uid : Str
  pub status : Str
  pub reason : Option Str
  pub dispatched_at : Option ℕ
  pub completed_at : Option ℕ

pub record NewJobTarget : Type 0 where
  pub instance_uid : Str
  pub status : Str
  pub reason : Option Str

-- The row that the INSERT makes of the columns that it names and the defaults of the rest.
abbrev pub target_row : ℕ → Str → NewJobTarget → JobTarget
target_row id job_id t = record {
  id = id;
  job_id = job_id;
  instance_uid = t.instance_uid;
  status = t.status;
  reason = t.reason;
  dispatched_at = none;
  completed_at = none;
}

abbrev pub target_rows : ℕ → Str → List NewJobTarget → List JobTarget
target_rows id job_id [] = []
target_rows id job_id (t ∷ ts) = target_row id job_id t ∷ target_rows (suc id) job_id ts

-- The table in the order of the ids, and the rows that RETURNING reads back.
unfoldable pub create_job_targets :
    ℕ → Str → List NewJobTarget → List JobTarget → List JobTarget × List JobTarget
create_job_targets next job_id targets table =
    let created = target_rows next job_id targets in (table ++ created, created)

unfoldable pub list_job_targets : Str → List JobTarget → List JobTarget
list_job_targets job_id table = keep (λ t. str_eq t.job_id job_id) table

-- What was asked for of a target.
abbrev pub asked : JobTarget → NewJobTarget
asked t = record { instance_uid = t.instance_uid; status = t.status; reason = t.reason }

keep-append :
    (job_id : Str) (xs ys : List JobTarget)
    → list_job_targets job_id (xs ++ ys) ≡ list_job_targets job_id xs ++ list_job_targets job_id ys
unfolding list_job_targets
keep-append job_id [] ys = refl
keep-append job_id (x ∷ xs) ys = ground (arith, keep-append job_id xs ys)

list-rows :
    (next : ℕ) (k job_id : Str) (targets : List NewJobTarget)
    → list_job_targets k (target_rows next job_id targets)
      ≡ (if str_eq job_id k then target_rows next job_id targets else [])
unfolding list_job_targets
list-rows next k job_id [] = ground arith
list-rows next k job_id (t ∷ ts) = ground (arith, list-rows (suc next) k job_id ts)

map-asked :
    (next : ℕ) (job_id : Str) (targets : List NewJobTarget)
    → map asked (target_rows next job_id targets) ≡ targets
map-asked next job_id [] = refl
map-asked next job_id (t ∷ ts) = ap (λ l. t ∷ l) (map-asked (suc next) job_id ts)

-- The targets created for a job are returned as they were asked for, in order, and reading the
-- targets of a job afterwards gives those it had and, for this job, the new ones after them.
pub create_job_targets-list_job_targets :
    (next : ℕ) (job_id k : Str) (targets : List NewJobTarget) (table : List JobTarget)
    → (map asked (create_job_targets next job_id targets table).1 ≡ targets)
      × (list_job_targets k (create_job_targets next job_id targets table).0
          ≡ list_job_targets k table
            ++ (if str_eq job_id k then (create_job_targets next job_id targets table).1 else []))
unfolding create_job_targets
create_job_targets-list_job_targets next job_id k targets table = (
  map-asked next job_id targets,
  keep-append k table (target_rows next job_id targets)
      ∙ ap (λ l. list_job_targets k table ++ l) (list-rows next k job_id targets),
)
