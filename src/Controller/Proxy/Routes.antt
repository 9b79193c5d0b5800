-- ===== src/Controller/Proxy/Routes.antt =====
-- The search for a route in src/controller/proxy_handler.rs.
use alfavibe_hack.Prelude.{
  Bool, true, false, not, ◌&&◌, List, [], ◌∷◌, Option, Text, text_Eq, utf8, find, drop, length,
  if◌then◌else◌, ◌==◌,
}
use alfavibe_hack.Config.Profile.{RouteConfig, RouteMatch}
use alfavibe_hack.Domain.Unicode.{starts_with}

abbrev is_empty : Text → Bool
is_empty [] = true
is_empty (c ∷ cs) = false

abbrev or_root : Text → Text
or_root [] = utf8 "/"
or_root (c ∷ cs) = c ∷ cs

-- The path without `/proxy` in front.
unfoldable pub route_path : Text → Text
route_path path =
    if starts_with (utf8 "/proxy") path then or_root (drop (length (utf8 "/proxy")) path) else path

-- A path, or else a prefix; headers are not looked at.
unfoldable pub path_matches : RouteMatch → Text → Bool
path_matches m path =
    if not (is_empty m.path)
    then path == m.path
    else if not (is_empty m.path_prefix)
    then starts_with m.path_prefix path
    else false

unfoldable pub find_route : List RouteConfig → Text → Text → Option RouteConfig
find_route routes method path =
    find (λ r. (r.match_.method == method) && path_matches r.match_ (route_path path)) routes
