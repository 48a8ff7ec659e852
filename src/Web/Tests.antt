-- ===== src/Web/Tests.antt =====
-- Requests to the UI listener.
use grex.Base.{◌≡◌, ◌-◌, refl, true, [], ◌∷◌, none, some, text, str_eq}
use grex.Base.Int.{pos}
use grex.Fleet.Tests.{fleet}
use grex.Api.Page.{Atoi}
use grex.Api.Filter.{Filters}
use grex.Api.Jobs.{CreateJobRequest, planned_of}
use grex.Api.Paginate.Tests.{sorted_heap, bits}
use grex.Web.Routes.{route}
use grex.Web.{World, Request, Server, serve, respond, job_json}
use grex.Web.Laws.{
  get_of, page_of, counts, adding, made_of, submitted, agent_page-api_agent, fleet_page-api_agents,
  serve-adding,
}

-- A stand-in for strconv.Atoi that reads one digit.
abbrev one_digit : Atoi
one_digit (c ∷ []) = some (pos (c - 48))
one_digit s = none

abbrev no_filters : Filters
no_filters = record { matchers = []; bools = [] }

abbrev server : Server
server = record {
  bits = bits;
  ops = sorted_heap;
  atoi = one_digit;
  parse_filters = λ q. some no_filters;
  now = 20;
  elapsed = pos 5;
  poll = 5;
  job_id = text "j1";
  job_time = 21;
  reached = true;
  renders = λ name page. true;
  has_asset = λ path. true;
  redirect_code = 307;
  river = none;
}

abbrev world : World
world = record { registry = fleet; store = none; jobs = some []; river = [] }

agent_page-api_agent_example :
    (serve server world (get_of (text "agents" ∷ text "a" ∷ []) [])).1
    ≡ page_of server (serve server world (get_of (text "api" ∷ text "agents" ∷ text "a" ∷ []) [])).1
agent_page-api_agent_example = agent_page-api_agent server world (text "a") [] (λ e. absurd cc)

fleet_page-api_agents_example :
    ((serve server world (get_of [] [])).1.code
      ≡ (serve server world (get_of (text "api" ∷ text "agents" ∷ []) [])).1.code)
    × (counts (serve server world (get_of [] [])).1.body
        ≡ counts (serve server world (get_of (text "api" ∷ text "agents" ∷ []) [])).1.body)
fleet_page-api_agents_example = fleet_page-api_agents server world [] (λ p. refl)

abbrev restart : CreateJobRequest
restart = record {
  filter = text "role=gateway";
  action = text "restart";
  action_config = [];
  submitted_by = text "ops";
}

abbrev submit : Request
submit = record {
  method = text "POST";
  path = text "api" ∷ text "jobs" ∷ [];
  query = [];
  body = some restart;
}

serve-adding_example :
    serve server world submit
    ≡ adding (made_of server (submitted submit)) world.jobs (world, (serve server world submit).1)
unfolding str_eq
serve-adding_example = serve-adding server world submit refl

-- That this adds the job.
submit_test :
    adding (made_of server (submitted submit)) world.jobs (world, (serve server world submit).1) ≡ (
      record world { jobs = some (planned_of (text "j1") 21 restart ∷ []) },
      respond 201 (job_json (planned_of (text "j1") 21 restart)),
    )
unfolding route str_eq
submit_test = refl
