-- ===== src/Providers/ModelRef.antt =====
-- pkg/providers/model_ref.go and the candidate list of pkg/providers/fallback.go: model
-- references, the canonical names of providers, and the list of models to try in order.
pub mod Normalize
pub mod Candidates
use nook_claw.Prelude.{
  ℕ, Bool, true, false, Option, none, some, List, [], ◌∷◌, ◌++◌, map, ◌||◌, if◌then◌else◌,
}
use nook_claw.Prelude.Text.{Text, codes, text_eq, is_empty, trim_space, to_lower, cut}

pub record ModelRef : Type 0 where
  pub provider : Text
  pub model : Text

unfoldable pub canonical : Text → Text
canonical p =
    if text_eq p (codes "z.ai") || text_eq p (codes "z-ai")
    then codes "zai"
    else if text_eq p (codes "opencode-zen")
    then codes "opencode"
    else if text_eq p (codes "qwen")
    then codes "qwen-portal"
    else if text_eq p (codes "kimi-code")
    then codes "kimi-coding"
    else if text_eq p (codes "gpt")
    then codes "openai"
    else if text_eq p (codes "claude")
    then codes "anthropic"
    else if text_eq p (codes "glm")
    then codes "zhipu"
    else if text_eq p (codes "google")
    then codes "gemini"
    else p

unfoldable pub normalize_provider : Text → Text
normalize_provider provider = canonical (to_lower (trim_space provider))

-- Without a slash, or with one at the front, the whole text is the model.
abbrev pub split_ref : Text → Text → Option (Text × Text) → Option ModelRef
split_ref raw default_provider (some (c ∷ before, after)) =
    let model = trim_space after in
    if is_empty model
    then none
    else some (record { provider = normalize_provider (c ∷ before); model = model })
split_ref raw default_provider _ =
    some (record { provider = normalize_provider default_provider; model = raw })

unfoldable pub parse_model_ref : Text → Text → Option ModelRef
parse_model_ref raw default_provider =
    let raw' = trim_space raw in
    if is_empty raw' then none else split_ref raw' default_provider (cut b'/' raw')

unfoldable pub model_key : Text → Text → Text
model_key provider model = normalize_provider provider ++ b'/' ∷ to_lower (trim_space model)

pub record ModelConfig : Type 0 where
  pub primary : Text
  pub fallbacks : List Text

pub record FallbackCandidate : Type 0 where
  pub provider : Text
  pub model : Text

-- `seen`: the keys so far.
unfoldable pub is_seen : Text → List Text → Bool
is_seen key [] = false
is_seen key (k ∷ ks) = text_eq k key || is_seen key ks

-- A lookup resolves a model's alias to a reference; `none` for the nil function.
abbrev pub Lookup : Type 0
Lookup = Option (Text → Option Text)

abbrev pub or_raw : Text → Option Text → Text
or_raw raw none = raw
or_raw raw (some resolved) = resolved

abbrev pub resolve_alias : Lookup → Text → Text
resolve_alias none raw = raw
resolve_alias (some lookup) raw = or_raw raw (lookup raw)

-- The reference that a raw entry of the configuration stands for.
unfoldable pub reference : Lookup → Text → Text → Option ModelRef
reference lookup default_provider raw =
    parse_model_ref (resolve_alias lookup (trim_space raw)) default_provider

abbrev pub ref_key : ModelRef → Text
ref_key ref = model_key ref.provider ref.model

abbrev pub to_candidate : ModelRef → FallbackCandidate
to_candidate ref = record { provider = ref.provider; model = ref.model }

-- addCandidate over the rest of the entries: a new key is kept, a key that was seen is not.
unfoldable pub add_candidates : List Text → List (Option ModelRef) → List FallbackCandidate
add_candidates seen [] = []
add_candidates seen (none ∷ refs) = add_candidates seen refs
add_candidates seen (some ref ∷ refs) =
    let old = add_candidates seen refs in
    let new = to_candidate ref ∷ add_candidates (ref_key ref ∷ seen) refs in
    if is_seen (ref_key ref) seen then old else new

unfoldable pub resolve_candidates_with_lookup : ModelConfig → Text → Lookup → List FallbackCandidate
unfolding add_candidates is_seen reference
resolve_candidates_with_lookup cfg default_provider lookup =
    add_candidates [] (map (reference lookup default_provider) (cfg.primary ∷ cfg.fallbacks))

unfoldable pub resolve_candidates : ModelConfig → Text → List FallbackCandidate
unfolding resolve_candidates_with_lookup
resolve_candidates cfg default_provider = resolve_candidates_with_lookup cfg default_provider none
