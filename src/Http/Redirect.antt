-- ===== src/Http/Redirect.antt =====
-- crates/engine/src/http/redirect.rs: which redirects are followed, and with which headers. What the
-- file reads from a URL by the `hyper` library is a parameter; the set of visited URLs is a list.
pub mod Headers
pub mod Chain
pub mod Segments
pub mod Examples
use Prim.Native.Char.{Char, code}
use Prim.Native.String
use kdown.Prelude.{
  ℕ, ◌+◌, ◌%◌, ◌^◌, Bool, true, false, not, ◌&&◌, ◌||◌, Option, none, some, List, [], ◌∷◌, ltb, leb,
  ◌==◌, if◌then◌else◌, String, str_eq, Result, ok, err,
}
use kdown.Control.Error.{DownloadError}

pub record RedirectPolicy : Type 0 where
  pub max_redirects : ℕ
  pub deny_downgrade : Bool
  pub forward_cross_origin_credentials : Bool

abbrev pub Header : Type 0
Header = String × String

-- The text of a `RedirectError` is left out.
pub data Rejection : Type 0 where
  no_location : Rejection
  unresolved : DownloadError → Rejection
  too_many : ℕ → Rejection
  loop_detected : Rejection
  downgrade : Rejection

pub data RedirectAction : Type 0 where
  follow : String → RedirectAction
  final : RedirectAction
  reject : Rejection → RedirectAction

pub record RedirectDecision : Type 0 where
  pub action : RedirectAction
  pub strip_credentials : Bool

-- `to_ascii_lowercase` of a character.
abbrev pub ascii_lower : ℕ → ℕ
ascii_lower n = if leb 65 n && leb n 90 then n + 32 else n

unfoldable pub eq_ignore_ascii_case : String → String → Bool
eq_ignore_ascii_case String.[] String.[] = true
eq_ignore_ascii_case String.[] (String.◌∷◌ d t) = false
eq_ignore_ascii_case (String.◌∷◌ c s) String.[] = false
eq_ignore_ascii_case (String.◌∷◌ c s) (String.◌∷◌ d t) =
    (ascii_lower (code c) == ascii_lower (code d)) && eq_ignore_ascii_case s t

unfoldable pub is_origin_credential_header : String → Bool
unfolding eq_ignore_ascii_case
is_origin_credential_header name =
    eq_ignore_ascii_case name "authorization"
    || eq_ignore_ascii_case name "cookie"
    || eq_ignore_ascii_case name "proxy-authorization"

unfoldable pub has_credentials : List Header → Bool
unfolding is_origin_credential_header
has_credentials [] = false
has_credentials (h ∷ rest) = is_origin_credential_header h.0 || has_credentials rest

-- Origins that cannot be read are different.
abbrev pub origins_differ : Option String → Option String → Bool
origins_differ (some from) (some to) = not (str_eq from to)
origins_differ none to = true
origins_differ (some from) none = true

abbrev pub is_scheme : Option String → String → Bool
is_scheme none scheme = false
is_scheme (some s) scheme = str_eq s scheme

abbrev pub visited_before : List String → String → Bool
visited_before [] url = false
visited_before (v ∷ rest) url = str_eq v url || visited_before rest url

pub record RedirectTracker : Type 0 where
  pub hops : ℕ
  pub visited : List String
  pub policy : RedirectPolicy
  pub cross_origin_seen : Bool

abbrev pub new : RedirectPolicy → RedirectTracker
new policy = record { hops = 0; visited = []; policy = policy; cross_origin_seen = false }

-- A response, with the request that it answers.
pub record Response : Type 0 where
  pub status : ℕ
  pub location : Option String
  pub current_url : String
  pub outgoing_headers : List Header

abbrev pub is_redirect : ℕ → Bool
is_redirect status =
    status == 301 || status == 302 || status == 303 || status == 307 || status == 308

abbrev pub rejected : Rejection → RedirectDecision
rejected why = record { action = reject why; strip_credentials = false }

-- What is read from a URL.
pub record Urls : Type 0 where
  pub resolve_redirect : String → String → Result DownloadError String
  pub scheme_of : String → Option String
  pub origin_of : String → Option String

-- The headers that pass the filter.
unfoldable pub keep_scoped : Bool → List Header → List Header
unfolding is_origin_credential_header
keep_scoped sensitive [] = []
keep_scoped sensitive (h ∷ rest) =
    let kept = keep_scoped sensitive rest in
    if is_origin_credential_header h.0 then kept else if not sensitive then h ∷ kept else kept

module _ (urls : Urls) where
  unfoldable pub scoped_request_headers : String → String → List Header → Bool → Bool → List Header
  unfolding keep_scoped
  scoped_request_headers original_url target_url headers sensitive forward =
      let cross_origin = origins_differ (urls.origin_of original_url) (urls.origin_of target_url) in
      if not cross_origin || forward then headers else keep_scoped sensitive headers

  -- From the check of the hops on, with the resolved target.
  unfoldable pub decide_target :
      RedirectTracker → Response → String → RedirectTracker × RedirectDecision
  unfolding has_credentials
  decide_target t r target =
      let hops = (t.hops + 1) % 2 ^ 32 in
      let cross_origin = origins_differ (urls.origin_of r.current_url) (urls.origin_of target) in
      let seen =
        (cross_origin && not t.policy.forward_cross_origin_credentials) || t.cross_origin_seen in
      if ltb t.policy.max_redirects hops
      then (record t { hops = hops }, rejected (too_many t.policy.max_redirects))
      else if visited_before t.visited target
      then (record t { hops = hops }, rejected loop_detected)
      else if t.policy.deny_downgrade
          && is_scheme (urls.scheme_of r.current_url) "https"
          && is_scheme (urls.scheme_of target) "http"
      then (record t { hops = hops; visited = target ∷ t.visited }, rejected downgrade)
      else (
        record t { hops = hops; visited = target ∷ t.visited; cross_origin_seen = seen },
        record {
          action = follow target;
          strip_credentials = seen && has_credentials r.outgoing_headers;
        },
      )

  abbrev pub decide_resolved :
      RedirectTracker → Response → Result DownloadError String → RedirectTracker × RedirectDecision
  unfolding decide_target
  decide_resolved t r (ok target) = decide_target t r target
  decide_resolved t r (err e) = (t, rejected (unresolved e))

  abbrev pub decide_location :
      RedirectTracker → Response → Option String → RedirectTracker × RedirectDecision
  unfolding decide_resolved
  decide_location t r none = (t, rejected no_location)
  decide_location t r (some loc) = decide_resolved t r (urls.resolve_redirect r.current_url loc)

  unfoldable pub decide : RedirectTracker → Response → RedirectTracker × RedirectDecision
  unfolding decide_location
  decide t r =
      if is_redirect r.status
      then decide_location t r r.location
      else (t, record { action = final; strip_credentials = false })
