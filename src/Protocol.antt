-- ===== src/Protocol.antt =====
-- _protocol.py: `ProtocolVersion.parse`. `str.strip` and the value of the environment's variable are
-- arguments; a value that is a version already is given by its text.
use a2akit.Prelude.{String, ◌≡◌, refl, ◌||◌, ◌==◌, Option, none, some, if◌then◌else◌}
use a2akit.Errors.{Result, ok, err, value_error}

pub data ProtocolVersion : Type 0 where
  v0_3 v1_0 : ProtocolVersion

module _ (strip : String → String) where
  unfoldable pub parse_text : String → Result ProtocolVersion
  parse_text value =
      let s = strip value in
      if s == "0.3" || s == "0.3.0"
      then ok v0_3
      else if s == "1.0" || s == "1.0.0"
      then ok v1_0
      else err value_error

  -- Without a value the environment's is parsed, and without that it is 1.0.
  unfoldable pub parse : Option String → Option String → Result ProtocolVersion
  parse env (some value) = parse_text value
  parse (some value) none = parse_text value
  parse none none = ok v1_0

abbrev pub text_of : ProtocolVersion → String
text_of v0_3 = "0.3"
text_of v1_0 = "1.0"

-- A version is what its own text parses to, whatever the environment says.
parse-text_of :
    (env : Option String) (v : ProtocolVersion) → parse (λ s. s) env (some (text_of v)) ≡ ok v
unfolding parse parse_text
parse-text_of env v0_3 = refl
parse-text_of env v1_0 = refl
