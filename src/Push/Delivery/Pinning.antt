-- ===== src/Push/Delivery/Pinning.antt =====
-- Where the requests of a delivery go, and what they carry.
use text.Mathlib.Text.{starts_with}
use a2akit.Prelude.{ℕ, String, ◌≡◌, Bool, false, ◌⊎◌, none, some, List, [], ◌∷◌, any}
use a2akit.Dict.{Dict}
use a2akit.Wire.{Task, MetaValue}
use a2akit.Push.Store.{TaskPushConfig}
use a2akit.Push.Validation.{Network, ParsedUrl, Policy, Resolved}
use a2akit.Push.Validation.Safe.{Accepted, Reachable}
use a2akit.Push.Delivery.{Request, Event, posted, slept, netloc, sanitized}

abbrev pub AllPosts : (Request → Type 0) → List Event → Type 0
AllPosts P [] = Unit
AllPosts P (posted q ∷ log) = P q × AllPosts P log
AllPosts P (slept d ∷ log) = AllPosts P log

-- No key of the payload's metadata begins with an underscore.
abbrev pub is_internal : String × MetaValue → Bool
is_internal e = starts_with e.0 "_"

module _ (net : Network) (with_netloc : String → String → String) (str : ℕ → String) where
  -- Where a request of an accepted URL goes: to the URL itself where no name was resolved, and else
  -- to the first of the pinned addresses, one of the resolver's answer for the host that may be
  -- reached.
  abbrev pub Target : String → Resolved → String → Type 0
  Target url r target =
      ((r.pinned_ips ≡ none) × (target ≡ url))
      ⊎ ((u : ParsedUrl) × (answer : List String) × (ip : String) × (ips : List String)
          × (net.urlparse url ≡ some u)
          × (net.getaddrinfo r.hostname ≡ some answer)
          × (r.pinned_ips ≡ some (ip ∷ ips))
          × Reachable net answer ip
          × (target ≡ with_netloc url (netloc net with_netloc str u ip)))

  abbrev pub Vetted : Policy → TaskPushConfig → Task → Request → Type 0
  Vetted p c t q =
      (r : Resolved) × Accepted net p c.config.url r
      × Target c.config.url r q.url
      × (q.payload ≡ sanitized t)
      × (any is_internal q.payload.metadata ≡ false)
