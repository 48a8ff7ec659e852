-- ===== src/Server/Routes.antt =====
-- The handlers that New of internal/server/server.go mounts. A path is one that the ServeMux has
-- cleaned; the pages behind the guard, and the handlers passed in, are values.
use grex.Base.{
  Bool, ◌&&◌, List, [], ◌∷◌, Str, text, str_eq, has_prefix, if◌then◌else◌, ◌≡◌, ◌≢◌, refl, arith,
}
use grex.Spiffe.{Url}
use grex.Config.{Auth}
use grex.Server.{RequestIdentity, Outcome, denied, served, require_spiffe_role}

pub data Page : Type 0 where
  server_metrics fleet_metrics : Page
  pprof : Str → Page

pub data Reply : Type 0 where
  page : Page → Reply
  ok draining not_found moved not_implemented : Reply
  forbidden : Str → Reply
  opamp_handler : Reply
  ui_handler : Reply

-- wrap: without a client CA the handler itself, else the guard in front of it.
abbrev pub guarded_by : Outcome → Reply → Reply
guarded_by (denied reason) reply = forbidden reason
guarded_by (served i) reply = reply

unfoldable pub wrap : Auth → Str → List (List Url) → Reply → Reply
wrap auth [] certs reply = reply
wrap auth (c ∷ client_ca_file) certs reply =
    guarded_by (require_spiffe_role auth.role_mapping auth.default_role certs) reply

abbrev pub pprof_page : Str → Reply
pprof_page path =
    if str_eq path (text "/debug/pprof/cmdline")
    then page (pprof (text "cmdline"))
    else if str_eq path (text "/debug/pprof/profile")
    then page (pprof (text "profile"))
    else if str_eq path (text "/debug/pprof/symbol")
    then page (pprof (text "symbol"))
    else (if str_eq path (text "/debug/pprof/trace")
        then page (pprof (text "trace"))
        else page (pprof (text "index")))

-- The paths that are not /healthz and /readyz; a subtree without its slash is redirected.
abbrev pub inner : Bool → Auth → Str → List (List Url) → Str → Reply
inner pprof_enabled auth client_ca_file certs path =
    if str_eq path (text "/metrics")
    then wrap auth client_ca_file certs (page server_metrics)
    else if str_eq path (text "/metrics/fleet")
    then wrap auth client_ca_file certs (page fleet_metrics)
    else if pprof_enabled && has_prefix path (text "/debug/pprof/")
    then wrap auth client_ca_file certs (pprof_page path)
    else (if pprof_enabled && str_eq path (text "/debug/pprof") then moved else not_found)

unfoldable pub telemetry : Bool → Bool → Auth → Str → List (List Url) → Str → Reply
unfolding wrap
telemetry ready pprof_enabled auth client_ca_file certs path =
    if str_eq path (text "/healthz")
    then ok
    else if str_eq path (text "/readyz")
    then (if ready then ok else draining)
    else inner pprof_enabled auth client_ca_file certs path

-- The OpAMP listener, with or without a handler.
unfoldable pub opamp : Bool → Str → Reply
opamp mounted path =
    if mounted && str_eq path (text "/v1/opamp") then opamp_handler else not_implemented

unfoldable pub ui : Bool → Auth → Str → List (List Url) → Reply
unfolding wrap
ui mounted auth client_ca_file certs =
    wrap auth client_ca_file certs (if mounted then ui_handler else not_implemented)

wrap-page :
    (auth : Auth) (ca : Str) (certs : List (List Url)) (reply : Reply) (p : Page)
    → ca ≢ []
    → wrap auth ca certs reply ≡ page p
    → ((i : RequestIdentity) × (require_spiffe_role auth.role_mapping auth.default_role certs
          ≡ served i))
      × (reply ≡ page p)
unfolding wrap
wrap-page auth [] certs reply p h e = absurd (h refl)
wrap-page auth (c ∷ ca) certs reply p h e =
    passed (require_spiffe_role auth.role_mapping auth.default_role certs) e
  where
    passed :
        (o : Outcome)
        → guarded_by o reply ≡ page p
        → ((i : RequestIdentity) × (o ≡ served i)) × (reply ≡ page p)
    passed (denied reason) e = absurd cc
    passed (served i) e = ((i, refl), e)

-- The telemetry listener with a client CA gives out metrics and profiles only to a request that the
-- guard serves, whatever the path.
pub telemetry-guarded :
    (ready pprof_enabled : Bool) (auth : Auth) (client_ca_file : Str) (certs : List (List Url))
    (path : Str) (p : Page)
    → client_ca_file ≢ []
    → telemetry ready pprof_enabled auth client_ca_file certs path ≡ page p
    → (i : RequestIdentity) × (require_spiffe_role auth.role_mapping auth.default_role certs
        ≡ served i)
unfolding telemetry
telemetry-guarded ready pprof_enabled auth ca certs path p h e = ground (
  arith,
  e,
  h,
  wrap-page auth ca certs (page server_metrics) p h,
  wrap-page auth ca certs (page fleet_metrics) p h,
  wrap-page auth ca certs (pprof_page path) p h,
)
