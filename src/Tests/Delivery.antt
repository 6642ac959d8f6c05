-- ===== src/Tests/Delivery.antt =====
-- The theorems on push notifications, on concrete data.
use mathlib.Core.List.{Sublist}
use a2akit.Prelude.{
  ℕ, eqb, String, ◌≡◌, ◌≢◌, false, not, none, some, [], ◌∷◌, ◌++◌, ◌==◌, if◌then◌else◌, arith,
}
use a2akit.Wire.{completed, submitted}
use a2akit.Push.Store.{PushConfig, TaskPushConfig}
use a2akit.Push.Validation.{ParsedUrl, Network, Policy, Resolved}
use a2akit.Push.Lane.{Item, Lane, Run, opens, arrives, waiting, put}
use a2akit.Push.Lane.Order.{last, Run-InOrder, Run-newest}
use a2akit.Push.Delivery.{Reply, responded, request_error}
use a2akit.Tests.Data.{task_in}

abbrev hook_url : ParsedUrl
hook_url = record {
  scheme = "https";
  hostname = some "example.org";
  port = some 8443;
  username = none;
  password = none;
}

-- A network with one name; addresses are their texts, and the global ones those that are not "10.0.0.1".
abbrev pub network : Network
network = record {
  Ip = String;
  urlparse = λ url. some hook_url;
  lower = λ s. s;
  ip_address = λ s. if s == "example.org" then none else some s;
  ipv4_mapped = λ ip. none;
  is_global = λ ip. not (ip == "10.0.0.1");
  ip_text = λ ip. ip;
  getaddrinfo = λ name. some ("93.184.215.14" ∷ []);
}

abbrev policy : Policy
policy = record { allow_http = false; allowed_hosts = []; blocked_hosts = [] }

abbrev hook : PushConfig
hook = record {
  id = some "p1";
  url = "https://example.org:8443/x";
  token = none;
  authentication = none;
}

abbrev bound : TaskPushConfig
bound = record { task_id = "t1"; config = hook }

-- The first two requests fail.
abbrev replies : ℕ → Reply
replies n = if eqb n 3 then responded 200 else request_error

abbrev with_netloc : String → String → String
with_netloc url netloc = "https://93.184.215.14:8443/x"

abbrev str : ℕ → String
str n = "8443"

abbrev resolved : Resolved
resolved = record { hostname = "example.org"; pinned_ips = some ("93.184.215.14" ∷ []) }

abbrev first_item : Item
first_item = some (task_in submitted)

abbrev second_item : Item
second_item = some (task_in completed)

not_zero : ◌≢◌ {A = ℕ} 2 0
not_zero e = absurd (omega (arith, e))

abbrev two_put : Lane
two_put = put 1 (put 1 (record { queue = []; phase = waiting }) first_item) second_item

-- The second snapshot displaces the first, which the worker has not taken yet.
two_arrivals : Run 1 (first_item ∷ (second_item ∷ [])) [] two_put
two_arrivals = arrives second_item (arrives first_item opens)

Run-InOrder_example : Sublist ([] ++ two_put.queue) (first_item ∷ (second_item ∷ []))
Run-InOrder_example = Run-InOrder 1 (first_item ∷ (second_item ∷ [])) [] two_put two_arrivals

Run-newest_example : last ([] ++ two_put.queue) ≡ last (first_item ∷ (second_item ∷ []))
Run-newest_example = Run-newest 1 (first_item ∷ (second_item ∷ [])) [] two_put two_arrivals
