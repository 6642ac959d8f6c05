-- ===== src/Tests/Requests.antt =====
-- The theorems on middleware, on concrete requests.
use a2akit.Prelude.{String, refl, Option, none, some, [], ◌∷◌, ◌==◌, if◌then◌else◌}
use a2akit.Errors.{Result, ok, value_error}
use a2akit.Middleware.{HttpRequest, Middleware, run_pipeline}
use a2akit.Middleware.Pipeline.{Bracketed, run_pipeline-Bracketed}

abbrev request : HttpRequest
request = record {
  path = "/v1/message:send";
  header = λ name. if name == "Authorization" then some "bearer abc" else none;
}

abbrev verify : String → Result (Option String)
verify token = ok (if token == "abc" then some "{}" else none)

abbrev logging : Middleware
logging = record { name = "logging"; before = λ c. (none, c); after = λ failed c. (none, c) }

abbrev refusing : Middleware
refusing = record {
  name = "refusing";
  before = λ c. (some value_error, c);
  after = λ failed c. (none, c);
}

run_pipeline-Bracketed_example :
    Bracketed
      (λ c. none)
      []
      []
      (logging ∷ (refusing ∷ []))
      (run_pipeline (λ c. none) [] [] (logging ∷ (refusing ∷ [])))
run_pipeline-Bracketed_example =
    run_pipeline-Bracketed (λ c. none) [] (logging ∷ (refusing ∷ []))
      ((λ failed c. refl), ((λ failed c. refl), tt))
