-- ===== src/Push/Validation/Safe.antt =====
-- What a URL that is accepted is known to be.
use a2akit.Prelude.{
  String, ◌≡◌, ◌∙◌, ◌⊎◌, inl, inr, refl, sym, ap, subst, Bool, true, false, ◌==◌, Option, none,
  some, List, [], ◌∷◌, ◌++◌, if◌then◌else◌, Bool-cases, Option-cases, arith, eq_refl,
}
use a2akit.Errors.{Result-cases, ok, ok-injective}
use a2akit.Push.Validation.{
  ParsedUrl, Network, Policy, Resolved, is_in, is_nonempty, is_blocked_ip, pin_all, pinned,
  resolve_name, unpinned, resolve_host, is_scheme_allowed, resolve_parsed, resolve_webhook_url,
}

some_injective : {A : Type 0} {a b : A} → some a ≡ some b → a ≡ b
some_injective e = cc

is_in_later : (x a : String) (rest : List String) → is_in x rest ≡ true → is_in x (a ∷ rest) ≡ true
is_in_later x a rest h = ground (arith, h)

module _ (net : Network) where
  -- A text of an address of the resolver's answer that may be reached: it is globally routable,
  -- itself or the IPv4 address that it maps.
  abbrev pub Reachable : List String → String → Type 0
  Reachable answer s =
      (a : String) × (ip : net.Ip) × (is_in a answer ≡ true)
      × (net.ip_address a ≡ some ip)
      × (net.ip_text ip ≡ s)
      × (is_blocked_ip net ip ≡ false)

  abbrev pub AllReachable : List String → List String → Type 0
  AllReachable answer [] = Unit
  AllReachable answer (s ∷ ss) = Reachable answer s × AllReachable answer ss

  module _ (whole : List String) where
    AllReachable-append :
        (xs : List String) (s : String)
        → AllReachable whole xs
        → Reachable whole s
        → AllReachable whole (xs ++ s ∷ [])
    AllReachable-append [] s h r = (r, tt)
    AllReachable-append (x ∷ xs) s (p, h) r = (p, AllReachable-append xs s h r)

    grown :
        (ips : List String) (s : String) (b : Bool)
        → AllReachable whole ips
        → Reachable whole s
        → AllReachable whole (if b then ips else ips ++ s ∷ [])
    grown ips s true h r = h
    grown ips s false h r = AllReachable-append ips s h r

    pin_all-AllReachable :
        (answer ips out : List String)
        → ((x : String) → is_in x answer ≡ true → is_in x whole ≡ true)
        → AllReachable whole ips
        → pin_all net answer ips ≡ ok (some out)
        → AllReachable whole out
    unfolding pin_all
    pin_all-AllReachable [] ips out within h e =
        subst (AllReachable whole) (some_injective (ok-injective e)) h
    pin_all-AllReachable (a ∷ rest) ips out within h e = elim (Option-cases (net.ip_address a)) [
      | inl n ↦ cc (rw (n, pin_all) at e)
      | inr (ip, n) ↦ elim (Bool-cases (is_blocked_ip net ip)) [
        | inl t ↦ cc (rw (n, pin_all) at e, t)
        | inr f ↦
            let here = within a (ground (arith, eq_refl a)) in
            pin_all-AllReachable rest _ out (λ x i. within x (is_in_later x a rest i))
              (grown ips (net.ip_text ip) _ h (a, ip, here, n, refl, f))
              (rw f at (rw (n, pin_all) at e))
      ]
    ]

  -- The ways in which a host is accepted: the operator listed it, it is an address that may be
  -- reached, or it was resolved, and each of the addresses that are pinned is one of the answer and
  -- may be reached.
  abbrev pub Trusted : Policy → Resolved → Type 0
  Trusted p r = (is_in (net.lower r.hostname) p.allowed_hosts ≡ true) × (r.pinned_ips ≡ none)

  abbrev pub Literal : Resolved → Type 0
  Literal r =
      (ip : net.Ip) × (net.ip_address r.hostname ≡ some ip)
      × (is_blocked_ip net ip ≡ false)
      × (r.pinned_ips ≡ none)

  abbrev pub Pinned : Resolved → Type 0
  Pinned r =
      (answer : List String) × (first : String) × (rest : List String) × (net.getaddrinfo r.hostname
        ≡ some answer)
      × (r.pinned_ips ≡ some (first ∷ rest))
      × AllReachable answer (first ∷ rest)

  pinned-Pinned :
      (hostname : String) (answer : List String) (ips : Option (List String)) (r : Resolved)
      → net.getaddrinfo hostname ≡ some answer
      → ((out : List String) → ips ≡ some out → AllReachable answer out)
      → pinned net hostname ips ≡ some r
      → (r.hostname ≡ hostname) × Pinned r
  pinned-Pinned hostname answer none r n g e = cc
  pinned-Pinned hostname answer (some []) r n g e = cc
  pinned-Pinned hostname answer (some (ip ∷ ips)) r n g e =
      let same = sym (some_injective e) in
      let named : r.hostname ≡ hostname = ap (λ x. x.hostname) same in
      let asked : net.getaddrinfo r.hostname ≡ some answer = ap net.getaddrinfo named ∙ n in
      (named, (answer, ip, ips, asked, ap (λ x. x.pinned_ips) same, g (ip ∷ ips) refl))

  resolve_name-Pinned :
      (hostname : String) (r : Resolved)
      → resolve_name net hostname ≡ ok (some r)
      → (r.hostname ≡ hostname) × Pinned r
  unfolding resolve_name
  resolve_name-Pinned hostname r e = elim (Option-cases (net.getaddrinfo hostname)) [
    | inl n ↦ cc (rw (n, resolve_name) at e)
    | inr (answer, n) ↦ elim (Result-cases (pin_all net answer [])) [
      | inl (x, q) ↦ cc (rw q at (rw (n, resolve_name) at e))
      | inr (ips, q) ↦
          pinned-Pinned hostname answer ips r n
            (λ out same. pin_all-AllReachable answer answer [] out (λ x i. i) tt (q ∙ ap ok same))
            (ok-injective (rw q at (rw (n, resolve_name) at e)))
    ]
  ]

  resolve_host-cases :
      (hostname : String) (r : Resolved)
      → resolve_host net hostname ≡ ok (some r)
      → (r.hostname ≡ hostname) × (Literal r ⊎ Pinned r)
  unfolding resolve_host
  resolve_host-cases hostname r e = elim (Option-cases (net.ip_address hostname)) [
    | inl n ↦
        let (same, p) = resolve_name-Pinned hostname r (rw (n, resolve_host) at e) in (same, inr p)
    | inr (ip, n) ↦ elim (Bool-cases (is_blocked_ip net ip)) [
      | inl t ↦ cc (rw t at (rw (n, resolve_host) at e))
      | inr f ↦
          let q = sym (some_injective (ok-injective (rw f at (rw (n, resolve_host) at e)))) in
          let same = ap (λ x. x.hostname) q in
          (same, inl (ip, rw same n, f, ap (λ x. x.pinned_ips) q))
    ]
  ]

  -- What is known of a URL whose resolution succeeds.
  abbrev pub Accepted : Policy → String → Resolved → Type 0
  Accepted p url r =
      (parsed : ParsedUrl) × (net.urlparse url ≡ some parsed)
      × (is_scheme_allowed net p parsed.scheme ≡ true)
      × (parsed.hostname ≡ some r.hostname)
      × (is_in (net.lower r.hostname) p.blocked_hosts ≡ false)
      × (Trusted p r ⊎ ((p.allowed_hosts ≡ []) × (Literal r ⊎ Pinned r)))

  -- The verdict on a host that is not blocked.
  verdict :
      (hosts : List String) (hostname : String) (r : Resolved)
      → (if is_nonempty hosts
          then (if is_in (net.lower hostname) hosts then ok (unpinned net hostname) else ok none)
          else resolve_host net hostname)
        ≡ ok (some r)
      → (r.hostname ≡ hostname)
        × (((is_in (net.lower r.hostname) hosts ≡ true) × (r.pinned_ips ≡ none))
            ⊎ ((hosts ≡ []) × (Literal r ⊎ Pinned r)))
  verdict [] hostname r e = let (same, h) = resolve_host-cases hostname r e in (same, inr (refl, h))
  verdict (x ∷ hosts) hostname r e = elim (Bool-cases (is_in (net.lower hostname) (x ∷ hosts))) [
    | inl t ↦
        let q = sym (some_injective (ok-injective (rw t at e))) in
        let same = ap (λ x. x.hostname) q in
        (
          same,
          inl (
            subst (λ h. is_in (net.lower h) (x ∷ hosts) ≡ true) (sym same) t,
            ap (λ x. x.pinned_ips) q,
          ),
        )
    | inr f ↦ cc (rw f at e)
  ]

  resolve_parsed-cases :
      (p : Policy) (u : ParsedUrl) (r : Resolved)
      → resolve_parsed net p u ≡ ok (some r)
      → (is_scheme_allowed net p u.scheme ≡ true)
        × (u.hostname ≡ some r.hostname)
        × (is_in (net.lower r.hostname) p.blocked_hosts ≡ false)
        × (Trusted p r ⊎ ((p.allowed_hosts ≡ []) × (Literal r ⊎ Pinned r)))
  unfolding resolve_parsed
  resolve_parsed-cases p u r e = elim (Bool-cases (is_scheme_allowed net p u.scheme)) [
    | inr f ↦ cc (rw (f, resolve_parsed) at e)
    | inl s ↦ elim (Option-cases u.hostname) [
      | inl n ↦ cc (rw (s, n, resolve_parsed) at e)
      | inr (hostname, n) ↦ elim (Bool-cases (hostname == "")) [
        | inl t ↦ cc (rw t at (rw (s, n, resolve_parsed) at e))
        | inr f ↦ elim (Bool-cases (is_in (net.lower hostname) p.blocked_hosts)) [
          | inl b ↦ cc (rw b at (rw f at (rw (s, n, resolve_parsed) at e)))
          | inr b ↦
              let (same, h) =
                verdict p.allowed_hosts hostname r
                  (rw b at (rw f at (rw (s, n, resolve_parsed) at e))) in
              (
                s,
                rw same n,
                subst (λ h. is_in (net.lower h) p.blocked_hosts ≡ false) (sym same) b,
                h,
              )
        ]
      ]
    ]
  ]

  -- A URL that resolves parses; its scheme is one that the policy allows, its host is the one that
  -- is returned and is on no list of blocked hosts. Either the operator listed the host as allowed,
  -- or there is no such list and the host is an address that may be reached, or each of the
  -- addresses that are pinned, at least one, is of the resolver's answer for the host and may be
  -- reached.
  pub resolve_webhook_url-Accepted :
      (p : Policy) (url : String) (r : Resolved)
      → resolve_webhook_url net p url ≡ ok (some r)
      → Accepted p url r
  unfolding resolve_webhook_url
  resolve_webhook_url-Accepted p url r e = elim (Option-cases (net.urlparse url)) [
    | inl n ↦ cc (rw (n, resolve_webhook_url) at e)
    | inr (parsed, n) ↦
        let (s, h, b, v) = resolve_parsed-cases p parsed r (rw (n, resolve_webhook_url) at e) in
        (parsed, n, s, h, b, v)
  ]
