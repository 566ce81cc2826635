-- ===== src/Samples/GlueRuns.antt =====
-- client/src/fetcher.ts (prefixMapper), client/src/sw.ts and client/src/index.ts at concrete inputs.
use http.Common.{◌≤◌, ◌≡◌, ◌⊎◌, refl, true, false, Option, none, some, [], ◌∷◌, All, str_eq}
use http.Wire.Types.{Str}
use http.Priority.{starts_with, image_dest, style_dest}
use http.Fetcher.{Url}
use http.Fetcher.Mapping
use http.Fetcher.Mapping.{split, is_bad, prefix_mapper, prefix_mapper_lem}
use http.SwProto
use http.SwProto.{ServedReply, http4_reply, ready_timeout_bulk}
use http.Worker
use http.Worker.{
  Ready, TabState, new_tab, on_hello_reply, Forwarded, replied, failed, Awaited, Choice, take,
  tab_or_hello, serve,
}
use http.Worker.Waits.{Passed, Asked, total_held, serve_over_http4, total_held_bound}
use http.Connect
use http.Connect.{
  Resolver, FullUrl, https, done, Fetched, answered, threw, ServerConfig, no_config, Target,
  session_target,
}
use http.Connect.Urls.{ComesFrom, session_target-ComesFrom}

-- "/a/b/c" under "/a/", with escapes that stand for themselves.
abbrev page_url : Url
page_url = record { origin = 1 ∷ []; pathname = 47 ∷ 97 ∷ 47 ∷ 98 ∷ 47 ∷ 99 ∷ [] }

abbrev under_a : Str
under_a = 47 ∷ 97 ∷ 47 ∷ []

maps_below : prefix_mapper some (1 ∷ []) under_a page_url ≡ some (98 ∷ 47 ∷ 99 ∷ [])
unfolding prefix_mapper split Mapping.decode_segments is_bad Mapping.join
maps_below = refl

prefix_mapper_lem_example :
    (str_eq (1 ∷ []) (1 ∷ []) ≡ true)
    × (starts_with page_url.pathname under_a ≡ true)
    × All (λ s. is_bad s ≡ false) (split (98 ∷ 47 ∷ 99 ∷ []))
prefix_mapper_lem_example =
    prefix_mapper_lem some (1 ∷ []) under_a page_url (98 ∷ 47 ∷ 99 ∷ []) maps_below

-- An escape that stands for "..".
abbrev unescape : Str → Option Str
unescape s = some (46 ∷ 46 ∷ [])

no_parent : prefix_mapper unescape (1 ∷ []) under_a page_url ≡ none
unfolding prefix_mapper split Mapping.decode_segments is_bad
no_parent = refl

abbrev reply : ServedReply
reply = record { status = 200; headers = []; body = some (7 ∷ []); stream = none; length = none }

abbrev open_tab : Ready
open_tab = record { available = true; reason = none; asset_prefix = some under_a }

-- A tab whose session opens during the wait, and one whose session does not.
abbrev in_time : Awaited
in_time = record {
  found = true;
  acked = true;
  ready = some open_tab;
  forwarded = replied (http4_reply reply);
  network = record { status = 200; length = none };
}

abbrev too_late : Awaited
too_late = record in_time { ready = none }

served_in_time : (serve in_time image_dest page_url.pathname none).choice ≡ take reply
unfolding serve Worker.serve_tab Worker.wait_ready Worker.serve_ready
served_in_time = refl

serve_over_http4_example :
    (true ≡ true)
    × ((info : Ready) × Passed page_url.pathname (replied (http4_reply reply)) reply info
        × (((tab_or_hello none).info ≡ some info) ⊎ ((true ≡ true) × (some open_tab ≡ some info))))
serve_over_http4_example =
    serve_over_http4 in_time image_dest page_url.pathname none reply served_in_time

-- An answer to hello that comes after the worker gave up on it counts all the same.
heard_late :
    (on_hello_reply
      (some open_tab)
      (record { tab = some (record new_tab { gave_up = true }); log = [] })).tab
    ≡ some (record { info = some open_tab; gave_up = true })
unfolding on_hello_reply
heard_late = refl

abbrev image_late : Asked
image_late = record { destination = image_dest; pathname = page_url.pathname; awaited = too_late }

abbrev style_late : Asked
style_late = record image_late { destination = style_dest }

total_held_bound_example :
    total_held (style_late ∷ image_late ∷ image_late ∷ []) none ≤ ready_timeout_bulk
total_held_bound_example =
    total_held_bound (style_late ∷ image_late ∷ image_late ∷ []) none (refl, (refl, (refl, tt)))

first_pays : total_held (style_late ∷ image_late ∷ image_late ∷ []) none ≡ 400
unfolding total_held serve Worker.serve_tab Worker.wait_ready SwProto.ready_timeout_ms
first_pays = refl

-- Every URL resolves to itself, over https.
abbrev secure_only : Resolver
secure_only raw base = some (record { protocol = https; href = raw })

abbrev wt_config : ServerConfig
wt_config = record no_config { web_transport_url = some (47 ∷ 119 ∷ 116 ∷ []) }

abbrev wt_target : Target
wt_target = record { url = 47 ∷ 119 ∷ 116 ∷ []; hash = none }

goes_to_wt : session_target secure_only [] true (answered wt_config) none none none ≡ done wt_target
unfolding session_target Connect.config_target Connect.resolve_wt_url
goes_to_wt = refl

session_target-ComesFrom_example :
    (true ≡ true) × ComesFrom secure_only [] none (answered wt_config) (47 ∷ 119 ∷ 116 ∷ [])
session_target-ComesFrom_example =
    session_target-ComesFrom secure_only [] true (answered wt_config) none none wt_target goes_to_wt
