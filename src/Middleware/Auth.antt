-- ===== src/Middleware/Auth.antt =====
-- Who passes the authentication.
use a2akit.Prelude.{String, ◌≡◌, false, ◌==◌, Option, some}
use a2akit.Errors.{Result, ok}
use a2akit.Middleware.{Context, with_claims}

module _ (casefold : String → String) (verify : String → Result (Option String)) where
  -- The scheme is that of a bearer, in any case, and `verify` knows the token.
  abbrev pub Checked : Context → String × String → Context → Type 0
  Checked c (scheme, token) c' =
      (claims : String) × (casefold scheme ≡ "bearer")
      × ((token == "") ≡ false)
      × (verify token ≡ ok (some claims))
      × (c' ≡ with_claims c claims token)
