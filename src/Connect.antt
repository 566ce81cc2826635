-- ===== src/Connect.antt =====
-- client/src/index.ts: the options that a page's config may set, the URL of the session, and how a
-- session is opened. The URL parser, atob, WebTransport, the inline config and what the fetch of
-- /config.json and the connection settle to are arguments; the types of a config's fields are taken
-- as they are declared.
pub mod Urls
use http.Common.{
  ℕ, Bool, true, false, not, ◌||◌, Option, none, some, List, [], ◌∷◌, if◌then◌else◌, str_eq,
}
use http.Wire.Types.{Str}
use http.Priority.{
  Json, Fields, null, boolean, number, bad_number, string, array, object, end, field,
}

-- The keys of TUNABLE.
abbrev pub budget_key : Str
budget_key = 98 ∷ 117 ∷ 100 ∷ 103 ∷ 101 ∷ 116 ∷ []

abbrev pub budget_floor_key : Str
budget_floor_key = 98 ∷ 117 ∷ 100 ∷ 103 ∷ 101 ∷ 116 ∷ 70 ∷ 108 ∷ 111 ∷ 111 ∷ 114 ∷ []

abbrev pub budget_cap_key : Str
budget_cap_key = 98 ∷ 117 ∷ 100 ∷ 103 ∷ 101 ∷ 116 ∷ 67 ∷ 97 ∷ 112 ∷ []

abbrev pub budget_k_key : Str
budget_k_key = 98 ∷ 117 ∷ 100 ∷ 103 ∷ 101 ∷ 116 ∷ 75 ∷ []

abbrev pub min_increment_key : Str
min_increment_key = 109 ∷ 105 ∷ 110 ∷ 73 ∷ 110 ∷ 99 ∷ 114 ∷ 101 ∷ 109 ∷ 101 ∷ 110 ∷ 116 ∷ []

abbrev pub initial_grant_key : Str
initial_grant_key = 105 ∷ 110 ∷ 105 ∷ 116 ∷ 105 ∷ 97 ∷ 108 ∷ 71 ∷ 114 ∷ 97 ∷ 110 ∷ 116 ∷ []

abbrev pub rto_floor_ms_key : Str
rto_floor_ms_key = 114 ∷ 116 ∷ 111 ∷ 70 ∷ 108 ∷ 111 ∷ 111 ∷ 114 ∷ 77 ∷ 115 ∷ []

abbrev pub max_recoveries_key : Str
max_recoveries_key = 109 ∷ 97 ∷ 120 ∷ 82 ∷ 101 ∷ 99 ∷ 111 ∷ 118 ∷ 101 ∷ 114 ∷ 105 ∷ 101 ∷ 115 ∷ []

abbrev pub reorder_packets_key : Str
reorder_packets_key =
    114 ∷ 101 ∷ 111 ∷ 114 ∷ 100 ∷ 101 ∷ 114 ∷ 80 ∷ 97 ∷ 99 ∷ 107 ∷ 101 ∷ 116 ∷ 115 ∷ []

abbrev pub stream_high_water_mark_key : Str
stream_high_water_mark_key =
    115 ∷ 116 ∷ 114 ∷ 101 ∷ 97 ∷ 109 ∷ 72 ∷ 105 ∷ 103 ∷ 104 ∷ 87 ∷ 97 ∷ 116 ∷ 101 ∷ 114 ∷ 77 ∷ 97
    ∷ 114 ∷ 107 ∷ []

abbrev pub early_resend_key : Str
early_resend_key = 101 ∷ 97 ∷ 114 ∷ 108 ∷ 121 ∷ 82 ∷ 101 ∷ 115 ∷ 101 ∷ 110 ∷ 100 ∷ []

abbrev pub session_seq_key : Str
session_seq_key = 115 ∷ 101 ∷ 115 ∷ 115 ∷ 105 ∷ 111 ∷ 110 ∷ 83 ∷ 101 ∷ 113 ∷ []

-- `raw[key]`, of the types that TUNABLE names.
unfoldable pub get_field : Str → Fields → Option Json
get_field key end = none
get_field key (field name value rest) = if str_eq key name then some value else get_field key rest

abbrev pub number_in : Option Json → Option ℕ
number_in (some (number n)) = some n
number_in (some bad_number) = none
number_in (some null) = none
number_in (some (boolean b)) = none
number_in (some (string s)) = none
number_in (some (array xs)) = none
number_in (some (object fs)) = none
number_in none = none

abbrev pub boolean_in : Option Json → Option Bool
boolean_in (some (boolean b)) = some b
boolean_in (some (number n)) = none
boolean_in (some bad_number) = none
boolean_in (some null) = none
boolean_in (some (string s)) = none
boolean_in (some (array xs)) = none
boolean_in (some (object fs)) = none
boolean_in none = none

pub record Tuning : Type 0 where
  pub tuned_budget : Option ℕ
  pub tuned_budget_floor : Option ℕ
  pub tuned_budget_cap : Option ℕ
  pub tuned_budget_k : Option ℕ
  pub tuned_min_increment : Option ℕ
  pub tuned_initial_grant : Option ℕ
  pub tuned_rto_floor_ms : Option ℕ
  pub tuned_max_recoveries : Option ℕ
  pub tuned_reorder_packets : Option ℕ
  pub tuned_stream_high_water_mark : Option ℕ
  pub tuned_early_resend : Option Bool
  pub tuned_session_seq : Option Bool

unfoldable pub tuning_of : Fields → Tuning
tuning_of raw = record {
  tuned_budget = number_in (get_field budget_key raw);
  tuned_budget_floor = number_in (get_field budget_floor_key raw);
  tuned_budget_cap = number_in (get_field budget_cap_key raw);
  tuned_budget_k = number_in (get_field budget_k_key raw);
  tuned_min_increment = number_in (get_field min_increment_key raw);
  tuned_initial_grant = number_in (get_field initial_grant_key raw);
  tuned_rto_floor_ms = number_in (get_field rto_floor_ms_key raw);
  tuned_max_recoveries = number_in (get_field max_recoveries_key raw);
  tuned_reorder_packets = number_in (get_field reorder_packets_key raw);
  tuned_stream_high_water_mark = number_in (get_field stream_high_water_mark_key raw);
  tuned_early_resend = boolean_in (get_field early_resend_key raw);
  tuned_session_seq = boolean_in (get_field session_seq_key raw);
}

-- An array is an object without the keys.
unfoldable pub tuning_options : Json → Tuning
tuning_options (object fields) = tuning_of fields
tuning_options null = tuning_of end
tuning_options (boolean b) = tuning_of end
tuning_options (number n) = tuning_of end
tuning_options bad_number = tuning_of end
tuning_options (string s) = tuning_of end
tuning_options (array xs) = tuning_of end

pub record ServerConfig : Type 0 where
  pub web_transport_url : Option Str
  pub cert_hash : Option Str
  pub asset_prefix : Option Str
  pub tuning : Option Json
  pub classes : Option Json

abbrev pub no_config : ServerConfig
no_config = record {
  web_transport_url = none;
  cert_hash = none;
  asset_prefix = none;
  tuning = none;
  classes = none;
}

-- What the code reads of `new URL(raw, base)`, and the parser, which throws on what is no URL.
pub record FullUrl : Type 0 where
  pub protocol : Str
  pub href : Str

abbrev pub Resolver : Type 0
Resolver = Str → Str → Option FullUrl

-- "https:" and "/assets/".
abbrev pub https : Str
https = 104 ∷ 116 ∷ 116 ∷ 112 ∷ 115 ∷ 58 ∷ []

abbrev pub default_asset_prefix : Str
default_asset_prefix = 47 ∷ 97 ∷ 115 ∷ 115 ∷ 101 ∷ 116 ∷ 115 ∷ 47 ∷ []

-- Why there is no session, one constructor for each text.
pub data Refusal : Type 0 where
  no_transport no_url bad_hash timed_out : Refusal
  not_url not_https config_failed connect_failed : Str → Refusal
  config_status : ℕ → Refusal

pub data Outcome (A : Type 0) : Type 0 where
  done : A → Outcome A
  refused : Refusal → Outcome A

abbrev pub resolved : Str → Option FullUrl → Outcome Str
resolved raw none = refused (not_url raw)
resolved raw (some u) = if str_eq u.protocol https then done u.href else refused (not_https u.href)

unfoldable pub resolve_wt_url : Resolver → Str → Str → Outcome Str
resolve_wt_url resolve raw base = resolved raw (resolve raw base)

-- The URL of an inline config, if it can be used.
abbrev pub if_done : Outcome Str → Option Str
if_done (done href) = some href
if_done (refused why) = none

abbrev pub usable_of : Resolver → Str → Option Str → Option Str
usable_of resolve base none = none
usable_of resolve base (some raw) = if_done (resolve_wt_url resolve raw base)

-- What `platformFetch(configUrl)` and `res.json()` settle to.
pub data Fetched : Type 0 where
  answered : ServerConfig → Fetched
  status : ℕ → Fetched
  threw : Str → Fetched

abbrev pub fetched_config : Bool → Fetched → Outcome ServerConfig
fetched_config has_transport (answered cfg) = done cfg
fetched_config true (status code) = refused (config_status code)
fetched_config true (threw message) = refused (config_failed message)
fetched_config false (status code) = done no_config
fetched_config false (threw message) = done no_config

-- The config in force, from the inline one or /config.json.
abbrev pub config_from : Bool → Fetched → ServerConfig → Option Str → Outcome ServerConfig
config_from has_transport fetched inline (some href) =
    done (record inline { web_transport_url = some href })
config_from has_transport fetched inline none = fetched_config has_transport fetched

abbrev pub found_config :
    Resolver → Str → Bool → Fetched → Option ServerConfig → Outcome ServerConfig
found_config resolve base has_transport fetched none = fetched_config has_transport fetched
found_config resolve base has_transport fetched (some inline) =
    config_from has_transport fetched inline (usable_of resolve base inline.web_transport_url)

-- `!cfgOut.webTransportUrl`, and `cfgOut.certHash || undefined`.
abbrev pub unless_empty : Option Str → Option Str
unless_empty none = none
unless_empty (some []) = none
unless_empty (some (c ∷ s)) = some (c ∷ s)

-- A certificate hash, as bytes or as text.
pub data Hash : Type 0 where
  hash_bytes : List ℕ → Hash
  hash_text : Str → Hash

abbrev pub hash_or : Option Hash → Option Str → Option Hash
hash_or (some h) text = some h
hash_or none none = none
hash_or none (some text) = some (hash_text text)

pub record Target : Type 0 where
  pub url : Str
  pub hash : Option Hash

abbrev pub target_at : Option Hash → Option Str → Outcome Str → Outcome Target
target_at hash text (refused why) = refused why
target_at hash text (done url) =
    done (record { url = url; hash = hash_or hash (unless_empty text) })

abbrev pub target_of : Resolver → Str → Option Hash → ServerConfig → Option Str → Outcome Target
target_of resolve base hash cfg none = refused no_url
target_of resolve base hash cfg (some raw) =
    target_at hash cfg.cert_hash (resolve_wt_url resolve raw base)

unfoldable pub config_target :
    Resolver → Str → Bool → Option Hash → Outcome ServerConfig → Outcome Target
config_target resolve base has_transport hash (refused why) = refused why
config_target resolve base has_transport hash (done cfg) =
    let target = target_of resolve base hash cfg (unless_empty cfg.web_transport_url) in
    if has_transport then target else refused no_transport

-- `openSession` up to the connection: where to, and the config that was found.
unfoldable pub session_target :
    Resolver
    → Str
    → Bool
    → Fetched
    → Option ServerConfig
    → Option Hash
    → Option Str
    → Outcome Target
session_target resolve base has_transport fetched inline hash (some url) =
    if has_transport then done (record { url = url; hash = hash }) else refused no_transport
session_target resolve base has_transport fetched inline hash none =
    config_target resolve base has_transport hash
      (found_config resolve base has_transport fetched inline)
