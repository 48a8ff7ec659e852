-- ===== src/Web/Routes.antt =====
-- Which of the routes of the UI listener's ServeMux a path falls under: those that Mount of
-- internal/api/handler.go and Mount of internal/ui/ui.go register, and
-- mountRiverUI of cmd/grex/main.go. A path is its segments between
-- slashes, which the mux has cleaned.
use grex.Base.{List, [], ◌∷◌, Str, text, str_eq, if◌then◌else◌, ◌&&◌, Bool, false}

-- What the mux chooses; a path wildcard is a segment that is not empty.
pub data Endpoint : Type 0 where
  api_agents api_status api_attributes api_attribute_values : Endpoint
  api_agent : Str → Endpoint
  api_jobs : Endpoint
  fleet_page fleet_partial status_page status_partial : Endpoint
  agent_page agent_partial : Str → Endpoint
  static_file : List Str → Endpoint
  slash_added river_slash_added : Endpoint
  no_route : Endpoint

abbrev pub wild : (Str → Endpoint) → Str → Endpoint
wild e [] = no_route
wild e (c ∷ cs) = e (c ∷ cs)

abbrev pub route_api : List Str → Endpoint
route_api (a ∷ []) =
    if str_eq a (text "agents")
    then api_agents
    else if str_eq a (text "status")
    then api_status
    else if str_eq a (text "attributes")
    then api_attributes
    else (if str_eq a (text "jobs") then api_jobs else no_route)
route_api (a ∷ b ∷ []) =
    if str_eq a (text "agents")
    then wild api_agent b
    else (if str_eq a (text "attributes") && str_eq b (text "values")
        then api_attribute_values
        else no_route)
route_api path = no_route

abbrev pub route_partials : List Str → Endpoint
route_partials (a ∷ []) =
    if str_eq a (text "agents")
    then fleet_partial
    else (if str_eq a (text "status") then status_partial else no_route)
route_partials (a ∷ b ∷ []) = if str_eq a (text "agents") then wild agent_partial b else no_route
route_partials path = no_route

abbrev pub route_rest : Str → List Str → Endpoint
route_rest a [] =
    if str_eq a (text "status")
    then status_page
    else if str_eq a (text "static")
    then slash_added
    else (if str_eq a (text "riverui") then river_slash_added else no_route)
route_rest a (b ∷ []) =
    if str_eq a (text "static")
    then static_file (b ∷ [])
    else (if str_eq a (text "agents") then wild agent_page b else no_route)
route_rest a (b ∷ c ∷ rest) =
    if str_eq a (text "static") then static_file (b ∷ c ∷ rest) else no_route

-- The subtree of the River page, which takes every method.
abbrev pub is_river : List Str → Bool
is_river (a ∷ b ∷ rest) = str_eq a (text "riverui")
is_river path = false

-- Any other path, without its method; `/` is the path with no segments.
unfoldable pub route : List Str → Endpoint
route [] = fleet_page
route (a ∷ rest) =
    if str_eq a (text "api")
    then route_api rest
    else (if str_eq a (text "partials") then route_partials rest else route_rest a rest)
