-- ===== src/Http/Redirect/Examples.antt =====
-- Tests of crates/engine/src/http/redirect.rs, and instances of its theorems.
use kdown.Prelude.{
  ◌≤◌, true, false, ◌≡◌, ◌↔◌, ◌⊎◌, refl, some, List, [], ◌∷◌, String, length, arith, ok,
}
use kdown.Http.Redirect.{
  Header, Urls, RedirectPolicy, Response, new, decide, scoped_request_headers, has_credentials,
  is_origin_credential_header, eq_ignore_ascii_case,
}
use kdown.Http.Redirect.Headers.{IsIn, AreSameOrigin, IsCredential, scoped_request_headers_lem}
use kdown.Http.Redirect.Chain.{run, targets, IsDistinct, run-IsDistinct}
use kdown.Http.Redirect.Segments.{normalize_segments, collapse}

-- Every URL is absolute, and its own origin.
abbrev absolute : Urls
absolute = record {
  resolve_redirect = λ current location. ok location;
  scheme_of = λ url. some "https";
  origin_of = λ url. some url;
}

abbrev policy : RedirectPolicy
policy = record {
  max_redirects = 2;
  deny_downgrade = true;
  forward_cross_origin_credentials = false;
}

abbrev to : String → Response
to location = record {
  status = 302;
  location = some location;
  current_url = "https://a";
  outgoing_headers = ("Cookie", "x") ∷ [];
}

-- The second visit of a URL and the third redirect are refused.
abbrev chain : List Response
chain = to "https://b" ∷ to "https://b" ∷ to "https://c" ∷ []

first_followed : targets (run absolute (new policy) chain) ≡ "https://b" ∷ []
unfolding run decide has_credentials is_origin_credential_header eq_ignore_ascii_case
first_followed = refl

run-IsDistinct_example :
    IsDistinct (targets (run absolute (new policy) chain))
    × (length (targets (run absolute (new policy) chain)) ≤ 2)
run-IsDistinct_example = run-IsDistinct absolute policy chain (omega arith)

abbrev headers : List Header
headers = ("AUTHORIZATION", "secret") ∷ ("Accept", "*") ∷ []

authorization_dropped :
    scoped_request_headers absolute "https://a" "https://b" headers false false
    ≡ ("Accept", "*") ∷ []
unfolding scoped_request_headers is_origin_credential_header eq_ignore_ascii_case
authorization_dropped = refl

abbrev accept : Header
accept = ("Accept", "*")

scoped_request_headers_lem_example :
    IsIn accept (scoped_request_headers absolute "https://a" "https://b" headers false false) ↔ (
      IsIn accept headers
      × ((AreSameOrigin absolute "https://a" "https://b" ⊎ (false ≡ true))
          ⊎ ((false ≡ false) × (¬ IsCredential "Accept"))))
scoped_request_headers_lem_example =
    scoped_request_headers_lem absolute "https://a" "https://b" headers false false accept

abbrev path : List String
path = "" ∷ "a" ∷ "." ∷ "b" ∷ ".." ∷ ".." ∷ ".." ∷ "c" ∷ []

path_normalized : normalize_segments path ≡ "c" ∷ []
unfolding normalize_segments collapse
path_normalized = refl
