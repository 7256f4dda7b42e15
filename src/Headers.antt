-- ===== src/Headers.antt =====
-- internal/httpheaders/headers.go: which headers pass the gateway. A header map is a list of names
-- with their values, in the order in which the loop over the map meets them.
pub mod Values
pub mod Normal
mod Tests
use airpc.Prelude.{
  ℕ, ◌+◌, ◌-◌, Bool, true, false, ◌&&◌, ◌||◌, not, List, [], ◌∷◌, ◌++◌, Option, none, some, Text,
  text, text_eq, is_empty, to_lower, lower_char, trim_space, is_token_char, all, leb, ◌==◌, lookup,
  insert, if◌then◌else◌,
}
use airpc.Unary.{Header}

abbrev pub hop_by_hop : List Text
hop_by_hop =
    text "connection"
    ∷ text "keep-alive"
    ∷ text "proxy-authenticate"
    ∷ text "proxy-authorization"
    ∷ text "te"
    ∷ text "trailer"
    ∷ text "transfer-encoding"
    ∷ text "upgrade"
    ∷ []

-- Is the text in the set?
unfoldable pub member : Text → List Text → Bool
member s [] = false
member s (t ∷ ts) = text_eq t s || member s ts

unfoldable pub is_hop_by_hop : Text → Bool
unfolding member
is_hop_by_hop name = member (to_lower name) hop_by_hop

unfoldable pub upper_char : ℕ → ℕ
upper_char c = if leb b'a' c && leb c b'z' then c - 32 else c

-- A letter is upper case at the start and behind `-`, and lower case elsewhere.
unfoldable pub canonical_from : Bool → Text → Text
unfolding upper_char lower_char
canonical_from upper [] = []
canonical_from upper (c ∷ s) =
    (if upper then upper_char c else lower_char c) ∷ canonical_from (c == b'-') s

-- `http.CanonicalHeaderKey(name)`: a name with another character than those of a token stays.
unfoldable pub canonical_header_key : Text → Text
unfolding canonical_from
canonical_header_key name = if all is_token_char name then canonical_from true name else name

-- `h[key]`, with no values for a missing key.
unfoldable pub values_of : Text → Header → List Text
values_of key h = elim (lookup key h) [ some values ↦ values | none ↦ [] ]

-- `h.Add(name, value)`
unfoldable pub add_value : Text → Text → Header → Header
unfolding values_of
add_value name value h =
    let key = canonical_header_key name in insert key (values_of key h ++ value ∷ []) h

unfoldable pub copy_values : Text → List Text → Header → Header
copy_values name [] dst = dst
copy_values name (value ∷ values) dst = copy_values name values (add_value name value dst)

-- The set of allowed names of `FilterRequest`.
unfoldable pub allowed_set : List Text → List Text
allowed_set [] = []
allowed_set (name ∷ names) =
    let rest = allowed_set names in
    let canonical = canonical_header_key (trim_space name) in
    if is_empty canonical || is_hop_by_hop canonical then rest else canonical ∷ rest

-- The loops over `src`, for the test that skips a canonical name.
unfoldable pub copy_headers : (Text → Bool) → Header → Header → Header
copy_headers skips [] dst = dst
copy_headers skips ((name, values) ∷ src) dst =
    let canonical = canonical_header_key name in
    let copied = copy_headers skips src (copy_values canonical values dst) in
    let skipped = copy_headers skips src dst in if skips canonical then skipped else copied

abbrev pub skips_request : List Text → Text → Bool
skips_request allowed canonical =
    not (member canonical (allowed_set allowed)) || is_hop_by_hop canonical

abbrev pub skips_response : Text → Bool
skips_response canonical = is_empty canonical || is_hop_by_hop canonical

unfoldable pub filter_request : Header → List Text → Header
unfolding copy_headers allowed_set
filter_request src allowed = copy_headers (skips_request allowed) src []

unfoldable pub filter_response : Header → Header
unfolding copy_headers
filter_response src = copy_headers skips_response src []
