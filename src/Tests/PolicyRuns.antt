-- ===== src/Tests/PolicyRuns.antt =====
-- Requests and bodies at the border of the web application.
use codex_nieuw.Prelude.{◌≡◌, refl, true, false, ◌↔◌, none, some, List, [], ◌∷◌}
use codex_nieuw.Json.{Text, codes}
use codex_nieuw.Web.BackendPolicy.{
  WebRequest, Bytes, header_is, same_origin_request, read_bounded_body, bounded,
  read_bounded_body_lem, same_origin_request_iff,
}

abbrev app_origin : Text
app_origin = codes "https://app.example"

abbrev posted : WebRequest
posted = record {
  method = codes "POST";
  sec_fetch_site = some (codes "same-origin");
  supplied = some app_origin;
}

abbrev body : List Bytes
body = (1 ∷ 2 ∷ []) ∷ (3 ∷ []) ∷ []

takes_post : same_origin_request posted app_origin ≡ true
unfolding same_origin_request
takes_post = refl

refuses_without_origin : same_origin_request (record posted { supplied = none }) app_origin ≡ false
unfolding same_origin_request
refuses_without_origin = refl

reads_at_the_maximum : read_bounded_body (some body) 3 ≡ some (1 ∷ 2 ∷ 3 ∷ [])
unfolding read_bounded_body
reads_at_the_maximum = refl

refuses_above : read_bounded_body (some body) 2 ≡ none
unfolding read_bounded_body
refuses_above = refl

read_bounded_body_lem_example : read_bounded_body (some body) 3 ≡ bounded body 3
read_bounded_body_lem_example = read_bounded_body_lem body 3

same_origin_request_iff_example : (same_origin_request posted app_origin ≡ true) ↔ (
    (header_is posted.sec_fetch_site (codes "cross-site") ≡ false)
    × (header_is posted.supplied app_origin ≡ true))
same_origin_request_iff_example = same_origin_request_iff posted app_origin refl
