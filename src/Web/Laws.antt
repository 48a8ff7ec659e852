-- ===== src/Web/Laws.antt =====
-- What the routes of the UI listener answer, next to each other.
use grex.Base.{
  ℕ, ◌≡◌, ◌≢◌, refl, ap, sym, ◌∙◌, inl, inr, Bool, Bool-cases, true, ◌&&◌, List, [], ◌∷◌, ◌++◌,
  Option, none, some, Str, text, str_eq, arith, not, false, if◌then◌else◌,
}
use grex.Persistence.Jobs.{Job, get_job}
use grex.Api.Handler.{agent_reply}
use grex.Persistence
use grex.Api.Listing.{list_response, page_response}
use grex.Api.Jobs.{CreateJobRequest, create_job, job_guards, planned_of, is_complete}
use grex.Ui.Query.{Values}
use grex.Ui.Data.{fleet_data, agent_data, fleet_page}
use grex.Web.Routes.{Endpoint, api_jobs, route, is_river}
use grex.Web.{
  World, Request, Response, Body, Page, Server, agent_json, agent_list, html, fleet, agent,
  not_found_page, job_json, respond, serve, render, list_agents, get_agent, get_fleet,
  get_agent_page, post_job, answer, is_get, posted, post_job_to, first,
}
use grex.Ui.Listing.{parse_pagination-eq-api, merged_agents-eq-listed}

-- GET of a path, with a query.
abbrev pub get_of : List Str → Values → Request
get_of path q = record { method = text "GET"; path = path; query = q; body = none }

-- The page that goes with an answer of the API for one agent.
abbrev pub page_of : Server → Response → Response
page_of s r = elim r.body [
  | agent_json v ↦ render s (text "agent.html") (agent v)
  | b ↦ respond 404 not_found_page
]

page_of-get_agent :
    (s : Server) (w : World) (c : ℕ) (cs : Str)
    → get_agent_page s w (c ∷ cs) ≡ page_of s (get_agent s w (c ∷ cs))
unfolding get_agent_page get_agent agent_data agent_reply
page_of-get_agent s w c cs = ground arith

-- GET /agents/{id} answers with the page of the agent that GET /api/agents/{id} answers with, and
-- with the page for a missing agent whenever that answers with an error; for an id that is not
-- empty.
pub agent_page-api_agent :
    (s : Server) (w : World) (id : Str) (q : Values)
    → id ≢ []
    → (serve s w (get_of (text "agents" ∷ id ∷ []) q)).1
      ≡ page_of s (serve s w (get_of (text "api" ∷ text "agents" ∷ id ∷ []) q)).1
unfolding serve answer route str_eq
agent_page-api_agent s w [] q h = absurd (h refl)
agent_page-api_agent s w (c ∷ cs) q h = page_of-get_agent s w c cs

-- How many agents were matched, and whether the list is partial.
abbrev pub counts : Body → Option (ℕ × Bool)
counts (agent_list l) = some (l.total, l.partial)
counts (html name (fleet d)) = some (d.total, d.partial)
counts b = none

get_fleet-list_agents :
    (s : Server) (w : World) (q : Request) (name : Str)
    → ((p : Page) → s.renders name p ≡ true)
    → ((get_fleet s w q name).code ≡ (list_agents s w q).code)
      × (counts (get_fleet s w q name).body ≡ counts (list_agents s w q).body)
unfolding list_agents get_fleet fleet_data fleet_page list_response page_response render
get_fleet-list_agents s w q name h = grind (
  arith,
  h,
  parse_pagination-eq-api s.atoi (first (text "limit") q) (first (text "offset") q),
  merged_agents-eq-listed w.registry w.store s.now,
)

-- For one query, GET / has the status of GET /api/agents, and shows the number of matched agents
-- and the partial flag that it answers with; when the template runs.
pub fleet_page-api_agents :
    (s : Server) (w : World) (q : Values)
    → ((p : Page) → s.renders (text "fleet.html") p ≡ true)
    → ((serve s w (get_of [] q)).1.code
        ≡ (serve s w (get_of (text "api" ∷ text "agents" ∷ []) q)).1.code)
      × (counts (serve s w (get_of [] q)).1.body
          ≡ counts (serve s w (get_of (text "api" ∷ text "agents" ∷ []) q)).1.body)
unfolding serve answer route str_eq list_agents
fleet_page-api_agents s w q h = get_fleet-list_agents s w (get_of [] q) (text "fleet.html") h

-- The body of a POST of /api/jobs.
abbrev pub for_jobs : Endpoint → Option CreateJobRequest → Option CreateJobRequest
for_jobs api_jobs body = body
for_jobs e body = none

abbrev pub submitted : Request → Option CreateJobRequest
submitted q =
    if not (is_get q.method) && str_eq q.method (text "POST")
    then for_jobs (route q.path) q.body
    else none

-- The job that is made of a body: every required field is there, and the database is reached.
abbrev pub made_of : Server → Option CreateJobRequest → Option Job
made_of s none = none
made_of s (some r) =
    if is_complete r && s.reached then some (planned_of s.job_id s.job_time r) else none

-- What a job that is made leaves and is answered with, where jobs are kept.
abbrev pub adding : Option Job → Option (List Job) → World × Response → World × Response
adding none jobs done = done
adding (some j) none done = done
adding (some j) (some jobs) done =
    (record (done.0) { jobs = some (jobs ++ (j ∷ [])) }, respond 201 (job_json j))

adding-none : (j : Option Job) (done : World × Response) → adding j none done ≡ done
adding-none none done = refl
adding-none (some j) done = refl

module _ (s : Server) (r : CreateJobRequest) (jobs : List Job) where
  post_job_to-made :
      (is_complete r && s.reached) ≡ true
      → post_job_to s (some r) (some jobs) ≡ (
        some (jobs ++ (planned_of s.job_id s.job_time r ∷ [])),
        respond 201 (job_json (planned_of s.job_id s.job_time r)),
      )
  unfolding create_job job_guards Persistence.Jobs.create_job
  post_job_to-made whole = ground (arith, whole)

  post_job_to-kept :
      (is_complete r && s.reached) ≡ false → (post_job_to s (some r) (some jobs)).0 ≡ some jobs
  unfolding create_job job_guards
  post_job_to-kept part = ground (arith, part)

post_job-adding :
    (s : Server) (w : World) (q : Request)
    → post_job s w q ≡ adding (made_of s q.body) w.jobs (w, (post_job s w q).1)
unfolding post_job create_job
post_job-adding s w q = go q.body w.jobs refl
  where
    left : Option (List Job) → Response → World × Response
    left js answered = (record w { jobs = js }, answered)

    go :
        (b : Option CreateJobRequest) (js : Option (List Job))
        → w.jobs ≡ js
        → (record w { jobs = (post_job_to s b js).0 }, (post_job_to s b js).1)
          ≡ adding (made_of s b) js (w, (post_job_to s b js).1)
    go none none has = ap (λ js. left js (post_job_to s none none).1) (sym has)
    go none (some jobs) has = ap (λ js. left js (post_job_to s none (some jobs)).1) (sym has)
    go (some r) none has =
        ap (λ js. left js (post_job_to s (some r) none).1) (sym has)
        ∙ sym (adding-none (made_of s (some r)) (w, (post_job_to s (some r) none).1))
    go (some r) (some jobs) has = elim (Bool-cases (is_complete r && s.reached)) [
      | inl whole ↦ rw whole (ap (λ p. left (p.0) (p.1)) (post_job_to-made s r jobs whole))
      | inr part ↦ rw part (
          ap (λ js. left js (post_job_to s (some r) (some jobs)).1)
            (post_job_to-kept s r jobs part ∙ sym has))
    ]

posted-adding :
    (s : Server) (w : World) (q : Request) (e : Endpoint)
    → posted s w q e ≡ adding (made_of s (for_jobs e q.body)) w.jobs (w, (posted s w q e).1)
posted-adding s w q api_jobs = post_job-adding s w q
posted-adding s w q e = refl

-- A request outside the River page does what a POST of /api/jobs calls for: if its body has every
-- required field, the database is reached and jobs are kept, then the job that it plans is put after
-- the others, it is answered with that job and 201, and nothing else is changed; every other request
-- leaves the world as it is.
pub serve-adding :
    (s : Server) (w : World) (q : Request)
    → is_river q.path ≡ false
    → serve s w q ≡ adding (made_of s (submitted q)) w.jobs (w, (serve s w q).1)
unfolding serve
serve-adding s w q inside = elim (Bool-cases (is_get q.method)) [
  | inl got ↦ rw (inside, got) refl
  | inr other ↦ elim (Bool-cases (str_eq q.method (text "POST"))) [
    | inr no_post ↦ rw (inside, other, no_post) refl
    | inl post ↦ rw (inside, other, post) (posted-adding s w q (route q.path))
  ]
]
