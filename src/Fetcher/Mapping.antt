-- ===== src/Fetcher/Mapping.antt =====
-- client/src/fetcher.ts, prefixMapper: the asset ID that a URL stands for. The base URL's origin is an
-- argument, and so is decodeURIComponent, which throws on a malformed escape.
use http.Common.{
  ℕ, ◌≡◌, refl, ap, sym, ◌∙◌, Bool, true, false, not, ◌||◌, Option, none, some, List, [], ◌∷◌, ◌++◌,
  ◌==◌, if◌then◌else◌, if_cases, str_eq, length, drop, any, All, subst, arith,
}
use http.Wire.Types.{Str}
use http.Priority.{starts_with}
use http.Fetcher.{Url}

abbrev pub slash : ℕ
slash = 47

abbrev pub dot : Str
dot = 46 ∷ []

abbrev pub dot_dot : Str
dot_dot = 46 ∷ 46 ∷ []

-- `rest.split("/")` and `segments.join("/")`.
abbrev pub onto_first : ℕ → List Str → List Str
onto_first c [] = (c ∷ []) ∷ []
onto_first c (s ∷ ss) = (c ∷ s) ∷ ss

unfoldable pub split : Str → List Str
split [] = [] ∷ []
split (c ∷ s) = let rest = split s in if c == slash then [] ∷ rest else onto_first c rest

unfoldable pub join : List Str → Str
join [] = []
join (s ∷ []) = s
join (s ∷ t ∷ ss) = s ++ (slash ∷ join (t ∷ ss))

abbrev pub has_slash : Str → Bool
has_slash = any (λ c. c == slash)

abbrev pub is_blank : Str → Bool
is_blank [] = true
is_blank (c ∷ s) = false

-- `seg === "" || seg === "." || seg === ".." || seg.includes("/")`.
unfoldable pub is_bad : Str → Bool
is_bad seg = is_blank seg || (str_eq seg dot || (str_eq seg dot_dot || has_slash seg))

abbrev pub push_segment : Option Str → Option (List Str) → Option (List Str)
push_segment none rest = none
push_segment (some seg) none = none
push_segment (some seg) (some segments) = if is_bad seg then none else some (seg ∷ segments)

-- The loop over the segments.
unfoldable pub decode_segments : (Str → Option Str) → List Str → Option (List Str)
decode_segments decode [] = some []
decode_segments decode (raw ∷ rest) = push_segment (decode raw) (decode_segments decode rest)

abbrev pub joined : Option (List Str) → Option Str
joined none = none
joined (some segments) = some (join segments)

unfoldable pub prefix_mapper : (Str → Option Str) → Str → Str → Url → Option Str
prefix_mapper decode origin prefix url =
    let rest = drop (length prefix) url.pathname in
    if not (str_eq url.origin origin) || not (starts_with url.pathname prefix)
    then none
    else (if is_blank rest then none else joined (decode_segments decode (split rest)))

split_plain : (s : Str) → has_slash s ≡ false → split s ≡ s ∷ []
unfolding split
split_plain [] e = refl
split_plain (c ∷ s) e =
    let rest = split_plain s (ground arith) in
    if_cases (λ l. l ≡ (c ∷ s) ∷ []) (c == slash) _ _ (λ h. absurd (ground arith))
      (λ h. ap (onto_first c) rest)

split_before : (s t : Str) → has_slash s ≡ false → split (s ++ (slash ∷ t)) ≡ s ∷ split t
unfolding split
split_before [] t e = ground arith
split_before (c ∷ s) t e =
    let rest = split_before s t (ground arith) in
    if_cases (λ l. l ≡ (c ∷ s) ∷ split t) (c == slash) _ _ (λ h. absurd (ground arith))
      (λ h. ap (onto_first c) rest)

abbrev IsPlain : List Str → Type 0
IsPlain = All (λ s. is_bad s ≡ false)

plain_slash : (s : Str) → is_bad s ≡ false → has_slash s ≡ false
unfolding is_bad
plain_slash s e = ground arith

-- Joined segments without slashes split into the same segments.
split-join : (s : Str) (ss : List Str) → IsPlain (s ∷ ss) → split (join (s ∷ ss)) ≡ s ∷ ss
unfolding join
split-join s [] h = split_plain s (plain_slash s h.0)
split-join s (t ∷ ss) h =
    split_before s (join (t ∷ ss)) (plain_slash s h.0) ∙ ap (◌∷◌ s) (split-join t ss h.1)

push-IsPlain :
    (seg : Option Str) (rest : Option (List Str)) (out : List Str)
    → ((ss : List Str) → rest ≡ some ss → IsPlain ss)
    → push_segment seg rest ≡ some out
    → IsPlain out
push-IsPlain none rest out h e = cc e
push-IsPlain (some seg) none out h e = cc e
push-IsPlain (some seg) (some ss) out h e =
    if_cases (λ (o : Option (List Str)). o ≡ some out → IsPlain out) (is_bad seg) _ _ (λ b k. cc k)
      (λ b k. let same : seg ∷ ss ≡ out = cc k in subst IsPlain same (b, h ss refl)) e

decode_segments-IsPlain :
    (decode : Str → Option Str) (raws out : List Str)
    → decode_segments decode raws ≡ some out
    → IsPlain out
unfolding decode_segments
decode_segments-IsPlain decode [] out e = let same : [] ≡ out = cc e in subst IsPlain same tt
decode_segments-IsPlain decode (raw ∷ rest) out e =
    push-IsPlain (decode raw) (decode_segments decode rest) out
      (decode_segments-IsPlain decode rest) e

split-nonempty : (s : Str) → (r : Str) × (rs : List Str) × (split s ≡ r ∷ rs)
unfolding split
split-nonempty [] = ([], [], refl)
split-nonempty (c ∷ s) =
    let (r, rs, e) = split-nonempty s in
    if_cases (λ l. (q : Str) × (qs : List Str) × (l ≡ q ∷ qs)) (c == slash) _ _
      (λ h. ([], split s, refl)) (λ h. (c ∷ r, rs, ap (onto_first c) e))

joined-IsPlain :
    (raw : Str) (seg : Option Str) (rest : Option (List Str)) (id : Str)
    → ((out : List Str) → push_segment seg rest ≡ some out → IsPlain out)
    → joined (push_segment seg rest) ≡ some id
    → IsPlain (split id)
joined-IsPlain raw none rest id h e = cc e
joined-IsPlain raw (some seg) none id h e = cc e
joined-IsPlain raw (some seg) (some ss) id h e =
    if_cases
      (λ (o : Option (List Str)).
        ((out : List Str) → o ≡ some out → IsPlain out) → joined o ≡ some id → IsPlain (split id))
      (is_bad seg) _ _ (λ b k n. cc n)
      (λ b k n.
        let p = k (seg ∷ ss) refl in
        let same : join (seg ∷ ss) ≡ id = cc n in
        subst (λ s. IsPlain (split s)) same (subst IsPlain (sym (split-join seg ss p)) p))
      h e

mapped-IsPlain :
    (decode : Str → Option Str) (raws : List Str) (r : Str) (rs : List Str) (id : Str)
    → raws ≡ r ∷ rs
    → joined (decode_segments decode raws) ≡ some id
    → IsPlain (split id)
unfolding decode_segments
mapped-IsPlain decode [] r rs id n e = cc n
mapped-IsPlain decode (raw ∷ rest) r rs id n e =
    joined-IsPlain raw (decode raw) (decode_segments decode rest) id
      (decode_segments-IsPlain decode (raw ∷ rest)) e

-- Only a URL of the same origin below the prefix has an asset ID, and no segment of the ID is empty,
-- "." or "..", whatever its percent escapes stand for: no ID leaves the asset directory.
pub prefix_mapper_lem :
    (decode : Str → Option Str) (origin prefix : Str) (url : Url) (id : Str)
    → prefix_mapper decode origin prefix url ≡ some id
    → (str_eq url.origin origin ≡ true)
      × (starts_with url.pathname prefix ≡ true)
      × All (λ s. is_bad s ≡ false) (split id)
unfolding prefix_mapper
prefix_mapper_lem decode origin prefix url id e =
    let rest = drop (length prefix) url.pathname in
    if_cases
      (λ (o : Option Str).
        o ≡ some id
        → (str_eq url.origin origin ≡ true)
          × (starts_with url.pathname prefix ≡ true)
          × IsPlain (split id))
      (not (str_eq url.origin origin) || not (starts_with url.pathname prefix)) _ _ (λ b k. cc k)
      (λ b.
        if_cases
          (λ (o : Option Str).
            o ≡ some id
            → (str_eq url.origin origin ≡ true)
              × (starts_with url.pathname prefix ≡ true)
              × IsPlain (split id))
          (is_blank rest) _ _ (λ c k. cc k)
          (λ c k.
            let (r, rs, n) = split-nonempty rest in
            (ground arith, ground arith, mapped-IsPlain decode (split rest) r rs id n k)))
      e
