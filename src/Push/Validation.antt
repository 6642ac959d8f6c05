-- ===== src/Push/Validation.antt =====
-- push/validation.py: `resolve_webhook_url`. The parsing of URLs and of addresses, the address
-- registries and the resolver are the standard library's and the system's: a record of functions.
pub mod Safe
use a2akit.Prelude.{
  ℕ, String, Bool, true, false, not, ◌&&◌, ◌||◌, ◌==◌, Option, none, some, List, [], ◌∷◌, ◌++◌, any,
  if◌then◌else◌,
}
use a2akit.Errors.{Result, ok, err, value_error, ◌>>=◌}

-- What `urlparse` gives of a URL.
pub record ParsedUrl : Type 0 where
  pub scheme : String
  pub hostname : Option String
  pub port : Option ℕ
  pub username : Option String
  pub password : Option String

-- `urlparse` (nothing if it raises), `str.lower`, `ipaddress.ip_address` (nothing if it raises
-- ValueError), the properties of an address that the code reads, and `getaddrinfo`: the addresses
-- as texts, or nothing if it raises OSError.
pub record Network : Type 1 where
  pub Ip : Type 0
  pub urlparse : String → Option ParsedUrl
  pub lower : String → String
  pub ip_address : String → Option Ip
  pub ipv4_mapped : Ip → Option Ip
  pub is_global : Ip → Bool
  pub ip_text : Ip → String
  pub getaddrinfo : String → Option (List String)

-- `WebhookValidationPolicy`; no set and an empty set are the empty list.
pub record Policy : Type 0 where
  pub allow_http : Bool
  pub allowed_hosts : List String
  pub blocked_hosts : List String

-- `ResolvedWebhookURL`
pub record Resolved : Type 0 where
  pub hostname : String
  pub pinned_ips : Option (List String)

abbrev pub is_in : String → List String → Bool
is_in s xs = any (λ x. s == x) xs

abbrev pub is_nonempty {ℓ} : {A : Type ℓ} → List A → Bool
is_nonempty [] = false
is_nonempty (x ∷ xs) = true

module _ (net : Network) where
  -- `_is_blocked_ip`: an IPv4-mapped address is judged as the IPv4 address.
  abbrev pub is_blocked_ip : net.Ip → Bool
  is_blocked_ip ip = elim (net.ipv4_mapped ip) [
    | none ↦ not (net.is_global ip)
    | some v4 ↦ not (net.is_global v4)
  ]

  -- The loop over the resolver's answer: nothing as soon as one address is blocked, else the texts
  -- that are new, after `ips`. A text that is no address raises.
  unfoldable pub pin_all : List String → List String → Result (Option (List String))
  pin_all [] ips = ok (some ips)
  pin_all (a ∷ rest) ips = elim (net.ip_address a) [
    | none ↦ err value_error
    | some ip ↦
        let more =
          pin_all rest (if is_in (net.ip_text ip) ips then ips else ips ++ net.ip_text ip ∷ []) in
        if is_blocked_ip ip then ok none else more
  ]

  -- `if not ips: return None`
  abbrev pub pinned : String → Option (List String) → Option Resolved
  pinned hostname none = none
  pinned hostname (some []) = none
  pinned hostname (some (ip ∷ ips)) =
      some (record { hostname = hostname; pinned_ips = some (ip ∷ ips) })

  unfoldable pub resolve_name : String → Result (Option Resolved)
  resolve_name hostname = elim (net.getaddrinfo hostname) [
    | none ↦ ok none
    | some answer ↦ pin_all answer [] >>= λ ips. ok (pinned hostname ips)
  ]

  abbrev pub unpinned : String → Option Resolved
  unpinned hostname = some (record { hostname = hostname; pinned_ips = none })

  -- The address, or the name, once the lists of hosts have had their say.
  unfoldable pub resolve_host : String → Result (Option Resolved)
  resolve_host hostname = elim (net.ip_address hostname) [
    | none ↦ resolve_name hostname
    | some ip ↦ if is_blocked_ip ip then ok none else ok (unpinned hostname)
  ]

  abbrev pub is_scheme_allowed : Policy → String → Bool
  is_scheme_allowed p scheme =
      (p.allow_http || scheme == "https") && (scheme == "http" || scheme == "https")

  unfoldable pub resolve_parsed : Policy → ParsedUrl → Result (Option Resolved)
  resolve_parsed p url =
      if not (is_scheme_allowed p url.scheme) then ok none else elim url.hostname [
        | none ↦ ok none
        | some hostname ↦
            if hostname == ""
            then ok none
            else if is_in (net.lower hostname) p.blocked_hosts
            then ok none
            else if is_nonempty p.allowed_hosts
            then (if is_in (net.lower hostname) p.allowed_hosts
                then ok (unpinned hostname)
                else ok none)
            else resolve_host hostname
      ]

  unfoldable pub resolve_webhook_url : Policy → String → Result (Option Resolved)
  resolve_webhook_url p url = elim (net.urlparse url) [
    | none ↦ ok none
    | some parsed ↦ resolve_parsed p parsed
  ]
