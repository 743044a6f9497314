-- ===== src/Settings/App.antt =====
-- `create_app` of app/main.py, with the routers of app/api/v1/router.py. Its
-- lifespan is in Pools, its exception handlers in Api.
use Prim.Native.String.{◌++◌}
use cognaris_chatbot.Prelude.{String, Option, none, some, List, [], ◌∷◌, map, not, if◌then◌else◌}
use cognaris_chatbot.Settings.{Settings, is_production}

-- a method and a path
pub record Route : Type 0 where
  pub method : String
  pub path : String

abbrev pub include_router : String → List Route → List Route
include_router prefix = map (λ (r : Route). record r { path = prefix ++ r.path })

-- app/api/v1/endpoints/health.py and app/api/v1/endpoints/sessions.py
abbrev pub health_router : List Route
health_router =
    record { method = "GET"; path = "/live" } ∷ record { method = "GET"; path = "/ready" } ∷ []

abbrev pub sessions_router : List Route
sessions_router =
    record { method = "POST"; path = "/sessions" }
    ∷ record { method = "GET"; path = "/sessions/{session_id}" }
    ∷ record { method = "POST"; path = "/sessions/{session_id}/messages" }
    ∷ []

abbrev joined : List Route → List Route → List Route
joined [] rs = rs
joined (r ∷ rest) rs = r ∷ joined rest rs

unfoldable pub api_router_v1 : List Route
api_router_v1 =
    joined (include_router "/health" health_router) (include_router "/onboarding" sessions_router)

pub record App : Type 0 where
  pub title : String
  pub version : String
  pub docs_url : Option String
  pub redoc_url : Option String
  pub routes : List Route

unfoldable pub create_app : Settings → App
unfolding api_router_v1
create_app settings = record {
  title = settings.app_name;
  version = settings.app_version;
  docs_url = if not (is_production settings) then some "/docs" else none;
  redoc_url = if not (is_production settings) then some "/redoc" else none;
  routes = include_router settings.api_prefix api_router_v1;
}
