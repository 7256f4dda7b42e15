-- ===== src/Headers/Tests.antt =====
-- The header filters at concrete inputs.
use airpc.Prelude.{
  ◌≡◌, refl, List, [], ◌∷◌, Text, text, text_eq, to_lower, lower_char, trim_space, is_token_char,
  elem, lookup, insert, erase, trim_left, trim_right, is_space,
}
use airpc.Unary.{Header}
use airpc.Headers.{
  member, is_hop_by_hop, canonical_header_key, canonical_from, upper_char, values_of, add_value,
  copy_values, allowed_set, copy_headers, filter_request, filter_response,
}
use airpc.Headers.Values.{collected, filter_request-values}

abbrev inbound : Header
inbound =
    (text "accept", text "a" ∷ text "b" ∷ [])
    ∷ (text "X-Secret", text "s" ∷ [])
    ∷ (text "Accept", text "c" ∷ [])
    ∷ (text "Connection", text "close" ∷ [])
    ∷ []

abbrev allowed : List Text
allowed = text "ACCEPT" ∷ text " connection " ∷ []

unfoldable headers : Unit {0}
unfolding member is_hop_by_hop canonical_header_key canonical_from upper_char values_of add_value
    copy_values allowed_set copy_headers filter_request filter_response text_eq to_lower lower_char
    trim_space is_token_char elem lookup insert erase trim_left trim_right is_space
headers = tt

filter_test :
    (filter_request inbound allowed ≡ (text "Accept", text "a" ∷ text "b" ∷ text "c" ∷ []) ∷ [])
    × (canonical_header_key (text "x-forwarded-proto") ≡ text "X-Forwarded-Proto")
    × (canonical_header_key (text "bad name") ≡ text "bad name")
unfolding headers
filter_test = (refl, refl, refl)

filter_request-values_example :
    values_of (text "Accept") (filter_request inbound allowed) ≡ text "a" ∷ text "b" ∷ text "c" ∷ []
unfolding headers collected
filter_request-values_example = filter_request-values inbound allowed (text "Accept")
