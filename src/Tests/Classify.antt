-- ===== src/Tests/Classify.antt =====
-- The classifier and the model references of pkg/providers on concrete texts.
use nook_claw.Prelude.{◌<◌, ◌≡◌, none, some, [], ◌∷◌, All}
use nook_claw.Prelude.Text.{codes}
use nook_claw.Providers.Types.{Error, canceled, deadline_exceeded, other, FailoverError, timeout}
use nook_claw.Providers.Classify.{classify_error, extract_http_status}
use nook_claw.Providers.Classify.Laws.{Describes, classify_error-Describes}
use nook_claw.Providers.Classify.Status.{extract_http_status-lt}
use nook_claw.Providers.ModelRef.{ModelConfig, normalize_provider, resolve_candidates_with_lookup}
use nook_claw.Providers.ModelRef.Normalize.{normalize_provider_idem}
use nook_claw.Providers.ModelRef.Candidates.{
  InOrder, AllDistinct, Covers, keys, references, resolve_candidates_dedupe,
}

abbrev too_many : Error
too_many = other (codes "Status: 429 Too Many Requests")

classify_error-Describes_example :
    ((f : FailoverError)
      → classify_error too_many (codes "groq") (codes "m") ≡ some f
      → Describes too_many (codes "groq") (codes "m") f)
    × (classify_error canceled (codes "groq") (codes "m") ≡ none)
    × ((f : FailoverError)
        → classify_error deadline_exceeded (codes "groq") (codes "m") ≡ some f
        → f.reason ≡ timeout)
classify_error-Describes_example = classify_error-Describes too_many (codes "groq") (codes "m")

extract_http_status-lt_example : extract_http_status (codes "status: 429") < 1000
extract_http_status-lt_example = extract_http_status-lt (codes "status: 429")

normalize_provider_idem_example :
    normalize_provider (normalize_provider (codes " GPT ")) ≡ normalize_provider (codes " GPT ")
normalize_provider_idem_example = normalize_provider_idem (codes " GPT ")

abbrev config : ModelConfig
config = record {
  primary = codes "gpt/o1";
  fallbacks = codes "claude" ∷ codes "OpenAI/o1" ∷ codes "groq/" ∷ [];
}

resolve_candidates_dedupe_example :
    let cs = resolve_candidates_with_lookup config (codes "openai") none in
    let refs = references config (codes "openai") none in
    InOrder cs refs × AllDistinct (keys cs) × All (Covers (keys cs)) refs
resolve_candidates_dedupe_example = resolve_candidates_dedupe config (codes "openai") none
