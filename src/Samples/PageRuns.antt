-- ===== src/Samples/PageRuns.antt =====
-- client/src/priority.ts and client/src/swproto.ts at concrete inputs.
use http.Common.{◌≡◌, ◌↔◌, refl, Bool, true, false, none, some, [], ◌∷◌, str_eq}
use http.Wire.Types.{Str}
use http.Priority.{ClassMap, critical, background, class_for, sort_rules, insert_rule, image_dest}
use http.Priority.Prefixes.{Decides, class_for_longest}
use http.Fetcher.{Served, http4, get_method}
use http.SwProto.{
  UrlParser, InterceptInput, forward, leave_to_network, leave_url, navigate_mode, is_read, is_empty,
  http4_reply, serve_reply, buffer, client_dir, bootstrap_file,
}
use http.SwProto.Forwarding.{IsOurs, leave_to_network_iff, serve_reply-bytes}

-- "/a" is background, "/a/b" is critical.
abbrev rules : ClassMap
rules = ((47 ∷ 97 ∷ []), background) ∷ ((47 ∷ 97 ∷ 47 ∷ 98 ∷ []), critical) ∷ []

abbrev path : Str
path = 47 ∷ 97 ∷ 47 ∷ 98 ∷ 47 ∷ 99 ∷ []

class_for_longest_example :
    Decides path image_dest rules (class_for path image_dest (sort_rules rules))
class_for_longest_example = class_for_longest path image_dest rules

longest_wins : class_for path image_dest (sort_rules rules) ≡ critical
unfolding class_for sort_rules insert_rule
longest_wins = refl

-- A URL is its path, at one origin.
abbrev one_origin : UrlParser
one_origin s = some (record { origin = 1 ∷ []; pathname = s })

abbrev image_get : InterceptInput
image_get = record {
  url = path;
  method = get_method;
  mode = [];
  has_range = false;
  client_id = 5 ∷ [];
}

leave_to_network_iff_example : (leave_to_network one_origin image_get (1 ∷ []) ≡ forward) ↔ (
    (str_eq [] navigate_mode ≡ false)
    × (is_read get_method ≡ true)
    × IsOurs (1 ∷ []) (one_origin path)
    × (◌≡◌ {A = Bool} false false)
    × (is_empty (5 ∷ []) ≡ false))
leave_to_network_iff_example = leave_to_network_iff one_origin image_get (1 ∷ [])

own_file :
    leave_to_network one_origin (record image_get { url = client_dir }) (1 ∷ []) ≡ bootstrap_file
unfolding leave_to_network leave_url
own_file = refl

-- Three bytes in the middle of a buffer.
abbrev part : Served
part = record {
  status = 200;
  headers = [];
  body = some (record { buffer = 9 ∷ 1 ∷ 2 ∷ 3 ∷ 9 ∷ []; byte_offset = 1; byte_length = 3 });
  stream = none;
  length = none;
}

serve_reply-bytes_example : serve_reply (http4 part) ≡ (
  http4_reply (record {
    status = 200;
    headers = [];
    body = some (1 ∷ 2 ∷ 3 ∷ []);
    stream = none;
    length = none;
  }),
  buffer (1 ∷ 2 ∷ 3 ∷ []) ∷ [],
)
serve_reply-bytes_example = serve_reply-bytes part refl
