-- ===== src/Push/Delivery.antt =====
-- push/delivery.py: `_build_headers`, `_pin_url`, `_deliver_single` and `deliver`. The answer to the
-- n-th request of a delivery, the rewriting of a URL (`urlunparse` of the parsed URL with another
-- netloc) and `str` of a port are arguments: the client, the standard library.
pub mod Attempts
pub mod Pinning
use Prim.Native.String.{◌++◌ as ◌&◌}
use text.Mathlib.Text.{starts_with, find?}
use a2akit.Prelude.{
  ℕ, zero, suc, ◌-◌, ◌^◌, String, Bool, true, not, ◌&&◌, ◌==◌, Option, none, some, List, [], ◌∷◌,
  keep, ltb, leb, if◌then◌else◌, is_some,
}
use a2akit.Dict
use a2akit.Dict.{Dict}
use a2akit.Wire.{Task}
use a2akit.Errors.{Error, Result, ok, err}
use a2akit.Push.Store.{AuthenticationInfo, PushConfig, TaskPushConfig, text_or}
use a2akit.Push.Validation.{Network, ParsedUrl, Policy, Resolved, resolve_webhook_url}

-- `_sanitize_task_for_client`: the keys that begin with an underscore are internal.
abbrev pub sanitized : Task → Task
sanitized t = record t { metadata = keep (λ e. not (starts_with e.0 "_")) t.metadata }

abbrev pub authorization : AuthenticationInfo → Dict String → Dict String
authorization a d = elim a.credentials [
  | none ↦ d
  | some c ↦ if c == "" then d else elim a.schemes [
    | [] ↦ d
    | scheme ∷ rest ↦ Dict.set d "Authorization" (scheme & (" " & c))
  ]
]

abbrev with_token : Option String → Dict String → Dict String
with_token token d =
    let t = text_or token "" in if t == "" then d else Dict.set d "X-A2A-Notification-Token" t

unfoldable pub build_headers : PushConfig → Dict String
build_headers c =
    let headers =
      with_token c.token
        (("Content-Type", "application/json") ∷ (("User-Agent", "a2akit-push/0.1") ∷ [])) in
    elim c.authentication [ none ↦ headers | some a ↦ authorization a headers ]

-- What a request is made of.
pub record Request : Type 0 where
  pub url : String
  pub headers : Dict String
  pub sni_hostname : Option String
  pub payload : Task

pub data Reply : Type 0 where
  responded : ℕ → Reply
  request_error : Reply
  raised : Error → Reply

pub data Event : Type 0 where
  posted : Request → Event
  slept : ℕ → Event

-- No further attempt: success, or a status below 500.
abbrev pub is_settled : ℕ → Bool
is_settled status = if leb 200 status && ltb status 300 then true else ltb status 500

-- The wait after a failed attempt, in units of the base delay; none after the last.
abbrev pub backoff : ℕ → ℕ → List Event → List Event
backoff max_retries attempt rest =
    if ltb attempt max_retries then slept (2 ^ (attempt - 1)) ∷ rest else rest

abbrev pub Log : Type 0
Log = List Event × Result (Unit {0})

-- The rest of the loop after an answer. An exception other than RequestError leaves it.
abbrev pub answered : Request → ℕ → ℕ → Reply → Log → Log
answered q max_retries attempt (responded status) (log, out) =
    if is_settled status
    then (posted q ∷ [], ok tt)
    else (posted q ∷ backoff max_retries attempt log, out)
answered q max_retries attempt request_error (log, out) =
    (posted q ∷ backoff max_retries attempt log, out)
answered q max_retries attempt (raised e) (log, out) = (posted q ∷ [], err e)

-- `for attempt in range(attempt, attempt + n)`
unfoldable pub attempts : (ℕ → Reply) → Request → ℕ → ℕ → ℕ → Log
attempts post q max_retries zero attempt = ([], ok tt)
attempts post q max_retries (suc n) attempt =
    answered q max_retries attempt (post attempt) (attempts post q max_retries n (suc attempt))

module _ (net : Network) (with_netloc : String → String → String) (str : ℕ → String) where
  abbrev userinfo : ParsedUrl → String
  userinfo u =
      let user = text_or u.username "" in
      let password = text_or u.password "" in
      if user == "" then "" else (if password == "" then user else user & (":" & password)) & "@"

  abbrev port_suffix : Option ℕ → String
  port_suffix none = ""
  port_suffix (some p) = ":" & str p

  abbrev ip_ref : String → String
  ip_ref ip = if is_some (find? ip ":") then "[" & (ip & "]") else ip

  abbrev pub netloc : ParsedUrl → String → String
  netloc u ip = userinfo u & (ip_ref ip & port_suffix u.port)

  -- `_pin_url`: the URL, the Host header and the name for TLS.
  unfoldable pub pin_url : ParsedUrl → String → String → String × String × Option String
  pin_url u url ip =
      let host = text_or u.hostname "" in
      (
        with_netloc url (netloc u ip),
        host & port_suffix u.port,
        (if u.scheme == "https" then some host else none),
      )

  abbrev pub plain : TaskPushConfig → Task → Request
  plain c t = record {
    url = c.config.url;
    headers = build_headers c.config;
    sni_hostname = none;
    payload = sanitized t;
  }

  abbrev pub pinned_to : TaskPushConfig → Task → ParsedUrl → String → Request
  pinned_to c t u ip =
      let (url, host, sni) = pin_url u c.config.url ip in
      record {
        url = url;
        headers = Dict.set (build_headers c.config) "Host" host;
        sni_hostname = sni;
        payload = sanitized t;
      }

  -- The request of a delivery whose URL was resolved. The URL parses, since it was resolved.
  unfoldable pub request_for : TaskPushConfig → Task → Resolved → Option ParsedUrl → Request
  request_for c t r none = plain c t
  request_for c t r (some u) = elim r.pinned_ips [
    | none ↦ plain c t
    | some ips ↦ elim ips [ [] ↦ plain c t | ip ∷ rest ↦ pinned_to c t u ip ]
  ]

  unfoldable pub deliver_single : Policy → ℕ → (ℕ → Reply) → TaskPushConfig → Task → Log
  deliver_single p max_retries post c t = elim (resolve_webhook_url net p c.config.url) [
    | err e ↦ ([], err e)
    | ok resolved ↦ elim resolved [
      | none ↦ ([], ok tt)
      | some r ↦
          attempts post (request_for c t r (net.urlparse c.config.url)) max_retries max_retries 1
    ]
  ]
