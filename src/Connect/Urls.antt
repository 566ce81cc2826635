-- ===== src/Connect/Urls.antt =====
-- client/src/index.ts: a session that a config asks for goes to an https URL.
use http.Common.{
  ◌≡◌, refl, sym, ap, ◌∙◌, subst, ◌⊎◌, inl, inr, Bool, true, false, Option, none, some, [], ◌∷◌,
  str_eq, if_cases,
}
use http.Wire.Types.{Str}
use http.Connect.{
  Resolver, FullUrl, https, Outcome, done, refused, resolved, resolve_wt_url, if_done, usable_of,
  Fetched, answered, status, threw, ServerConfig, no_config, Hash, hash_or, Target, target_at,
  target_of, unless_empty, config_target, config_from, fetched_config, found_config, session_target,
  not_https,
}

-- The URL that the text `raw` resolves to against the page's, and it is https.
pub record IsSecure (resolve : Resolver) (base raw url : Str) : Type 0 where
  pub full : FullUrl
  pub parses : resolve raw base ≡ some full
  pub secure : str_eq full.protocol https ≡ true
  pub same : full.href ≡ url

-- The URL of an inline config, resolved once to see whether it can be used and once more.
pub record FromInline (resolve : Resolver) (base : Str) (inline : Option ServerConfig) (url : Str)
    : Type 0 where
  pub config : ServerConfig
  pub given : inline ≡ some config
  pub raw : Str
  pub names : config.web_transport_url ≡ some raw
  pub first : Str
  pub usable : IsSecure resolve base raw first
  pub secure : IsSecure resolve base first url

-- The URL of /config.json, where no inline config has one that can be used.
pub record FromFetched (resolve : Resolver) (base : Str) (inline : Option ServerConfig)
    (fetched : Fetched) (url : Str) : Type 0 where
  pub unusable :
      (config : ServerConfig) (raw first : Str)
      → inline ≡ some config
      → config.web_transport_url ≡ some raw
      → IsSecure resolve base raw first
      → ⊥
  pub config : ServerConfig
  pub given : fetched ≡ answered config
  pub raw : Str
  pub names : config.web_transport_url ≡ some raw
  pub secure : IsSecure resolve base raw url

resolved-IsSecure :
    (resolve : Resolver) (base raw url : Str) (o : Option FullUrl)
    → resolve raw base ≡ o
    → resolved raw o ≡ done url
    → IsSecure resolve base raw url
resolved-IsSecure resolve base raw url none n e = cc e
resolved-IsSecure resolve base raw url (some u) n e =
    if_cases (λ p. p ≡ done url → IsSecure resolve base raw url) (str_eq u.protocol https)
      (done u.href) (refused (not_https u.href))
      (λ b k. record { full = u; parses = n; secure = b; same = cc k }) (λ b k. cc k) e

resolve_wt_url-IsSecure :
    (resolve : Resolver) (base raw url : Str)
    → resolve_wt_url resolve raw base ≡ done url
    → IsSecure resolve base raw url
unfolding resolve_wt_url
resolve_wt_url-IsSecure resolve base raw url e =
    resolved-IsSecure resolve base raw url (resolve raw base) refl e

-- What is secure is resolved.
IsSecure-resolved :
    (resolve : Resolver) (base raw url : Str)
    → IsSecure resolve base raw url
    → resolve_wt_url resolve raw base ≡ done url
unfolding resolve_wt_url
IsSecure-resolved resolve base raw url h = rw h.parses (rw h.secure (ap done h.same))

target_at-IsSecure :
    (resolve : Resolver) (base raw : Str) (hash : Option Hash) (text : Option Str) (o : Outcome Str)
    (t : Target)
    → resolve_wt_url resolve raw base ≡ o
    → target_at hash text o ≡ done t
    → IsSecure resolve base raw t.url
target_at-IsSecure resolve base raw hash text (refused why) t n e = cc e
target_at-IsSecure resolve base raw hash text (done url) t n e =
    let there : Target = record { url = url; hash = hash_or hash (unless_empty text) } in
    let same : there ≡ t = cc e in
    subst (IsSecure resolve base raw) (ap (λ (x : Target). x.url) same)
      (resolve_wt_url-IsSecure resolve base raw url n)

-- The text that the target comes from.
target_of-IsSecure :
    (resolve : Resolver) (base : Str) (hash : Option Hash) (cfg : ServerConfig) (o : Option Str)
    (t : Target)
    → target_of resolve base hash cfg (unless_empty o) ≡ done t
    → (raw : Str) × (o ≡ some raw) × IsSecure resolve base raw t.url
target_of-IsSecure resolve base hash cfg none t e = cc e
target_of-IsSecure resolve base hash cfg (some []) t e = cc e
target_of-IsSecure resolve base hash cfg (some (c ∷ raw)) t e =
    (c ∷ raw, refl, target_at-IsSecure resolve base (c ∷ raw) hash cfg.cert_hash _ t refl e)

-- The config in force is the one that `found_config` found, and it names the target.
config_target-found :
    (resolve : Resolver) (base : Str) (has_transport : Bool) (hash : Option Hash)
    (o : Outcome ServerConfig) (t : Target)
    → config_target resolve base has_transport hash o ≡ done t
    → (has_transport ≡ true)
      × ((cfg : ServerConfig) × (o ≡ done cfg)
          × ((raw : Str) × (cfg.web_transport_url ≡ some raw) × IsSecure resolve base raw t.url))
unfolding config_target
config_target-found resolve base has_transport hash (refused why) t e = cc e
config_target-found resolve base true hash (done cfg) t e =
    (refl, (cfg, refl, target_of-IsSecure resolve base hash cfg cfg.web_transport_url t e))
config_target-found resolve base false hash (done cfg) t e = cc e

-- A config that names a URL was fetched.
fetched_config-answered :
    (has_transport : Bool) (fetched : Fetched) (cfg : ServerConfig) (raw : Str)
    → fetched_config has_transport fetched ≡ done cfg
    → cfg.web_transport_url ≡ some raw
    → fetched ≡ answered cfg
fetched_config-answered has_transport (answered c) cfg raw e n = cc e
fetched_config-answered true (status code) cfg raw e n = cc e
fetched_config-answered true (threw message) cfg raw e n = cc e
fetched_config-answered false (status code) cfg raw e n =
    let same : no_config ≡ cfg = cc e in cc (n, ap (λ (x : ServerConfig). x.web_transport_url) same)
fetched_config-answered false (threw message) cfg raw e n =
    let same : no_config ≡ cfg = cc e in cc (n, ap (λ (x : ServerConfig). x.web_transport_url) same)

-- Where the URL of a session without one from the caller comes from.
abbrev pub ComesFrom : Resolver → Str → Option ServerConfig → Fetched → Str → Type 0
ComesFrom resolve base inline fetched url =
    FromInline resolve base inline url ⊎ FromFetched resolve base inline fetched url

module _ (resolve : Resolver) (base : Str) (has_transport : Bool) (fetched : Fetched)
    (cfg : ServerConfig) (raw url : Str) (names : cfg.web_transport_url ≡ some raw)
    (safe : IsSecure resolve base raw url) where
  from_fetched :
      (inline : Option ServerConfig)
      → ((config : ServerConfig) (raw first : Str)
          → inline ≡ some config
          → config.web_transport_url ≡ some raw
          → IsSecure resolve base raw first
          → ⊥)
      → fetched_config has_transport fetched ≡ done cfg
      → ComesFrom resolve base inline fetched url
  from_fetched inline u e = inr (record {
    unusable = u;
    config = cfg;
    given = fetched_config-answered has_transport fetched cfg raw e names;
    raw = raw;
    names = names;
    secure = safe;
  })

  from_usable :
      (inline : ServerConfig) (text : Str) (o : Outcome Str)
      → inline.web_transport_url ≡ some text
      → resolve_wt_url resolve text base ≡ o
      → config_from has_transport fetched inline (if_done o) ≡ done cfg
      → ComesFrom resolve base (some inline) fetched url
  from_usable inline text (done first) n r e = inl (record {
    config = inline;
    given = refl;
    raw = text;
    names = n;
    first = first;
    usable = resolve_wt_url-IsSecure resolve base text first r;
    secure =
        let same : record inline { web_transport_url = some first } ≡ cfg = cc e in
        let there : some first ≡ some raw =
          ap (λ (x : ServerConfig). x.web_transport_url) same ∙ names in
        subst (λ r. IsSecure resolve base r url) (cc there) safe;
  })
  from_usable inline text (refused why) n r e =
      from_fetched (some inline)
        (λ config other first g m s.
          let same : inline ≡ config = cc g in
          let text_same : some text ≡ some other =
            sym n ∙ (ap (λ (x : ServerConfig). x.web_transport_url) same ∙ m) in
          let other_same : text ≡ other = cc text_same in
          cc (r, IsSecure-resolved resolve base other first s, other_same))
        e

  from_inline :
      (inline : ServerConfig) (o : Option Str)
      → inline.web_transport_url ≡ o
      → config_from has_transport fetched inline (usable_of resolve base o) ≡ done cfg
      → ComesFrom resolve base (some inline) fetched url
  from_inline inline none n e =
      from_fetched (some inline)
        (λ config other first g m s.
          let same : inline ≡ config = cc g in
          cc (n, ap (λ (x : ServerConfig). x.web_transport_url) same, m))
        e
  from_inline inline (some text) n e =
      from_usable inline text (resolve_wt_url resolve text base) n refl e

  found_config-ComesFrom :
      (inline : Option ServerConfig)
      → found_config resolve base has_transport fetched inline ≡ done cfg
      → ComesFrom resolve base inline fetched url
  found_config-ComesFrom none e = from_fetched none (λ config other first g m s. cc g) e
  found_config-ComesFrom (some inline) e = from_inline inline inline.web_transport_url refl e

-- When the caller gives no URL, a session is only opened where WebTransport exists, and to an https
-- URL that comes, resolved against the page's URL, from the inline config, or from /config.json
-- where no inline config has a URL that can be used.
pub session_target-ComesFrom :
    (resolve : Resolver) (base : Str) (has_transport : Bool) (fetched : Fetched)
    (inline : Option ServerConfig) (hash : Option Hash) (t : Target)
    → session_target resolve base has_transport fetched inline hash none ≡ done t
    → (has_transport ≡ true) × ComesFrom resolve base inline fetched t.url
unfolding session_target
session_target-ComesFrom resolve base has_transport fetched inline hash t e =
    let (there, (cfg, found, (raw, names, safe))) =
      config_target-found resolve base has_transport hash
        (found_config resolve base has_transport fetched inline) t e in
    (
      there,
      found_config-ComesFrom resolve base has_transport fetched cfg raw t.url names safe inline
          found,
    )
