-- ===== src/Web.antt =====
-- The requests of the UI listener: the routes that Mount of internal/api/handler.go and of
-- internal/ui/ui.go register on one ServeMux, and the handlers behind them with the status and the
-- body that they answer with. Bodies are the values that are encoded as JSON or handed to a
-- template.
pub mod Routes
pub mod Laws
mod Tests
use grex.Base.{
  ℕ, Bool, true, false, not, ◌&&◌, ◌||◌, List, [], ◌∷◌, Option, none, some, Str, text, str_eq,
  if◌then◌else◌,
}
use grex.Base.Int.{ℤ}
use grex.Fleet.Registry.{Registry, agents}
use grex.Fleet.View.{Capabilities, AgentView}
use grex.Fleet.Stats.{StatusCounts, status_counts}
use grex.Persistence.Store.{Tables}
use grex.Persistence.Jobs.{Job}
use grex.Api.Filter.{Filters}
use grex.Api.Page.{Atoi, Pagination, window, bad_limit, bad_offset, parse_pagination}
use grex.Api.Paginate.{HeapOps}
use grex.Api.Handler.{AgentReply, found, missing_id, not_found, lookup_failed, agent_reply}
use grex.Api.Listing.{ListResponse, list_response}
use grex.Api.Attributes.{list_attribute_keys, list_attribute_values}
use grex.Api.Jobs.{
  JobReply, created, service_unavailable, malformed_body, filter_required, action_required,
  submitted_by_required, create_failed, CreateJobRequest, create_job, planned_of,
}
use grex.Web.Routes.{
  Endpoint, api_agents, api_status, api_attributes, api_attribute_values, api_agent, api_jobs,
  static_file, fleet_page, fleet_partial, status_page, status_partial, agent_page, agent_partial,
  slash_added, river_slash_added, no_route, is_river, route,
}
use grex.Ui.Query.{Values}
use grex.Ui.Query as Query
use grex.Ui.Data.{PageData, StatusView, fleet_data, agent_data, status_data}

-- `jobs` is `none` without a database, like the store. `river` is what River's own tables hold, as a
-- text.
pub record World : Type 0 where
  pub registry : Registry
  pub store : Option Tables
  pub jobs : Option (List Job)
  pub river : Str

pub record Request : Type 0 where
  pub method : Str
  pub path : List Str
  pub query : Values
  pub body : Option CreateJobRequest

-- What a template gets.
pub data Page : Type 0 where
  fleet : PageData → Page
  agent : AgentView → Page
  status : StatusView → Page

pub data Body : Type 0 where
  agent_list : ListResponse → Body
  agent_json : AgentView → Body
  status_json : StatusCounts → Body
  keys_json : List Str → Body
  values_json : Str → List Str → Body
  job_json : Job → Body
  html : Str → Page → Body
  not_found_page : Body
  error_text : Body
  asset : List Str → Body
  moved river_body : Body

pub record Response : Type 0 where
  pub code : ℕ
  pub body : Body

abbrev pub respond : ℕ → Body → Response
respond code body = record { code = code; body = body }

abbrev pub fail : ℕ → Response
fail code = respond code error_text

abbrev pub is_get : Str → Bool
is_get method = str_eq method (text "GET") || str_eq method (text "HEAD")

-- What the handlers read apart from the request: the capability bits, the heap, the parsers of the
-- query, the clock with the time since the start, the poll interval, the id and the time that the
-- database gives a job and whether it is reached, which templates run without an error, which
-- files the assets have, the status of the mux's redirects, and River's
-- page, which is mounted with a database: what it makes of a request and of River's tables.
pub record Server : Type 1 where
  pub bits : Capabilities ℕ
  pub ops : HeapOps
  pub atoi : Atoi
  pub parse_filters : Values → Option Filters
  pub now : ℕ
  pub elapsed : ℤ
  pub poll : ℕ
  pub job_id : Str
  pub job_time : ℕ
  pub reached : Bool
  pub renders : Str → Page → Bool
  pub has_asset : List Str → Bool
  pub redirect_code : ℕ
  pub river : Option (Request → Str → Str × ℕ)

abbrev pub first : Str → Request → Str
first key q = Query.get key q.query

module _ (s : Server) where
  abbrev pub list_filtered : World → ℕ → ℕ → Option Filters → Response
  list_filtered w limit offset none = fail 400
  list_filtered w limit offset (some filters) =
      respond 200
        (agent_list (list_response s.ops s.bits w.registry w.store s.now filters limit offset))

  abbrev pub list_window : World → Request → Pagination → Response
  list_window w q (window limit offset) = list_filtered w limit offset (s.parse_filters q.query)
  list_window w q bad_limit = fail 400
  list_window w q bad_offset = fail 400

  -- listAgents
  unfoldable pub list_agents : World → Request → Response
  list_agents w q =
      list_window w q (parse_pagination s.atoi (first (text "limit") q) (first (text "offset") q))

  abbrev pub agent_response : AgentReply → Response
  agent_response (found v) = respond 200 (agent_json v)
  agent_response missing_id = fail 400
  agent_response not_found = fail 404
  agent_response lookup_failed = fail 500

  -- getAgent
  unfoldable pub get_agent : World → Str → Response
  get_agent w id = agent_response (agent_reply s.bits w.registry w.store s.now id)

  -- status
  unfoldable pub get_status : World → Response
  get_status w = respond 200 (status_json (status_counts (agents w.registry)))

  unfoldable pub get_keys : World → Request → Response
  get_keys w q =
      respond 200 (keys_json (list_attribute_keys (agents w.registry) (first (text "prefix") q)))

  abbrev pub values_response : Option (Str × List Str) → Response
  values_response none = fail 400
  values_response (some (key, values)) = respond 200 (values_json key values)

  unfoldable pub get_values : World → Request → Response
  get_values w q =
      values_response
        (list_attribute_values (agents w.registry) (first (text "key") q) (first (text "prefix") q))

  abbrev pub job_code : JobReply → ℕ
  job_code created = 201
  job_code service_unavailable = 503
  job_code malformed_body = 400
  job_code filter_required = 400
  job_code action_required = 400
  job_code submitted_by_required = 400
  job_code create_failed = 500

  abbrev pub job_response : Option CreateJobRequest → JobReply → Response
  job_response (some r) created = respond 201 (job_json (planned_of s.job_id s.job_time r))
  job_response body reply = fail (job_code reply)

  -- createJob, with the jobs after it.
  abbrev pub post_job_to :
      Option CreateJobRequest → Option (List Job) → Option (List Job) × Response
  post_job_to body none =
      (none, job_response body (create_job false s.reached s.job_id s.job_time body []).1)
  post_job_to body (some jobs) =
      let done = create_job true s.reached s.job_id s.job_time body jobs in
      (some (done.0), job_response body (done.1))

  unfoldable pub post_job : World → Request → World × Response
  post_job w q = let done = post_job_to q.body w.jobs in (record w { jobs = done.0 }, done.1)

  -- render
  unfoldable pub render : Str → Page → Response
  render name page = if s.renders name page then respond 200 (html name page) else fail 500

  abbrev pub fleet_response : Str → Option PageData → Response
  fleet_response name none = fail 400
  fleet_response name (some d) = render name (fleet d)

  -- fleetPage and fleetPartial
  unfoldable pub get_fleet : World → Request → Str → Response
  get_fleet w q name =
      fleet_response name
        (fleet_data s.bits s.atoi s.parse_filters w.registry w.store s.now s.poll q.query)

  abbrev pub agent_or : Response → Str → Option AgentView → Response
  agent_or missing name none = missing
  agent_or missing name (some v) = render name (agent v)

  -- agentPage, with its page for a missing agent, and agentPartial, with its text.
  unfoldable pub get_agent_page : World → Str → Response
  get_agent_page w id =
      agent_or (respond 404 not_found_page) (text "agent.html")
        (agent_data s.bits w.registry w.store s.now id)

  unfoldable pub get_agent_partial : World → Str → Response
  get_agent_partial w id =
      agent_or (fail 404) (text "partials/agent.html")
        (agent_data s.bits w.registry w.store s.now id)

  unfoldable pub get_status_page : World → Str → Response
  get_status_page w name = render name (status (status_data w.registry s.elapsed))

  abbrev pub serve_river : Option (Request → Str → Str × ℕ) → World → Request → World × Response
  serve_river none w q = (w, fail 404)
  serve_river (some page) w q =
      let done = page q w.river in (record w { river = done.0 }, respond (done.1) river_body)

  abbrev pub river_redirect : Option (Request → Str → Str × ℕ) → Response
  river_redirect none = fail 404
  river_redirect (some page) = respond s.redirect_code moved

  -- A request whose path has a route for GET.
  unfoldable pub answer : World → Request → Endpoint → Response
  answer w q api_agents = list_agents w q
  answer w q (api_agent id) = get_agent w id
  answer w q api_status = get_status w
  answer w q api_attributes = get_keys w q
  answer w q api_attribute_values = get_values w q
  answer w q (static_file path) = if s.has_asset path then respond 200 (asset path) else fail 404
  answer w q slash_added = respond s.redirect_code moved
  answer w q river_slash_added = river_redirect s.river
  answer w q fleet_page = get_fleet w q (text "fleet.html")
  answer w q fleet_partial = get_fleet w q (text "partials/agents.html")
  answer w q (agent_page id) = get_agent_page w id
  answer w q (agent_partial id) = get_agent_partial w id
  answer w q status_page = get_status_page w (text "status.html")
  answer w q status_partial = get_status_page w (text "partials/status.html")
  answer w q api_jobs = fail 405
  answer w q no_route = fail 404

  abbrev pub other_method : Endpoint → Response
  other_method no_route = fail 404
  other_method river_slash_added = river_redirect s.river
  other_method e = fail 405

  abbrev pub posted : World → Request → Endpoint → World × Response
  posted w q api_jobs = post_job w q
  posted w q e = (w, other_method e)

  -- The mux: the River page takes all methods, only POST /api/jobs is else not a GET, and another
  -- method of a path that is there gets 405.
  unfoldable pub serve : World → Request → World × Response
  unfolding answer post_job
  serve w q =
      if is_river q.path
      then serve_river s.river w q
      else if is_get q.method
      then (w, answer w q (route q.path))
      else (if str_eq q.method (text "POST")
          then posted w q (route q.path)
          else (w, other_method (route q.path)))
