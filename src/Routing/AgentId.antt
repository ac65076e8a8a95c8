-- ===== src/Routing/AgentId.antt =====
-- pkg/routing/agent_id.go: identifiers of agents and accounts.
pub mod Laws
pub mod Normal
use nook_claw.Prelude.{
  ℕ, ◌-◌, Bool, true, false, ◌||◌, ◌&&◌, [], ◌∷◌, length, take, leb, ◌==◌, if◌then◌else◌,
}
use nook_claw.Prelude.Text.{Text, codes, is_empty, trim_space, to_lower}

abbrev pub default_agent_id : Text
default_agent_id = codes "main"

abbrev pub default_main_key : Text
default_main_key = codes "main"

abbrev pub default_account_id : Text
default_account_id = codes "default"

abbrev pub max_agent_id_length : ℕ
max_agent_id_length = 64

-- [a-z0-9]
abbrev pub is_alnum : ℕ → Bool
is_alnum c = (leb b'a' c && leb c b'z') || (leb b'0' c && leb c b'9')

-- [a-z0-9_-]
abbrev pub is_id_char : ℕ → Bool
is_id_char c = is_alnum c || c == b'_' || c == b'-'

unfoldable pub all_id_chars : Text → Bool
all_id_chars [] = true
all_id_chars (c ∷ cs) = is_id_char c && all_id_chars cs

-- validIDRe
unfoldable pub is_valid_id : Text → Bool
unfolding all_id_chars
is_valid_id [] = false
is_valid_id (c ∷ cs) = is_alnum c && all_id_chars cs && leb (length cs) 63

-- invalidCharsRe.ReplaceAllString: a dash for each run; `in_run` behind an invalid character.
unfoldable pub collapse_invalid : Bool → Text → Text
collapse_invalid in_run [] = []
collapse_invalid in_run (c ∷ cs) =
    let kept = c ∷ collapse_invalid false cs in
    let rest = collapse_invalid true cs in
    if is_id_char c then kept else if in_run then rest else b'-' ∷ rest

-- leadingDashRe
unfoldable pub trim_leading_dashes : Text → Text
trim_leading_dashes [] = []
trim_leading_dashes (c ∷ cs) =
    let rest = trim_leading_dashes cs in if c == b'-' then rest else c ∷ cs

abbrev keep_dash : ℕ → Text → Text
keep_dash c [] = if c == b'-' then [] else c ∷ []
keep_dash c (d ∷ ds) = c ∷ d ∷ ds

-- trailingDashRe
unfoldable pub trim_trailing_dashes : Text → Text
trim_trailing_dashes [] = []
trim_trailing_dashes (c ∷ cs) = keep_dash c (trim_trailing_dashes cs)

abbrev or_default : Text → Text → Text
or_default default [] = default
or_default default (c ∷ cs) = c ∷ cs

-- The steps on an identifier that is not valid as it stands.
unfoldable pub sanitize_id : Text → Text
unfolding collapse_invalid trim_leading_dashes trim_trailing_dashes
sanitize_id lower =
    take max_agent_id_length
      (trim_trailing_dashes (trim_leading_dashes (collapse_invalid false lower)))

-- What NormalizeAgentID and NormalizeAccountID share.
unfoldable pub normalize_id : Text → Text → Text
unfolding is_valid_id sanitize_id
normalize_id default id =
    let trimmed = trim_space id in
    let lower = to_lower trimmed in
    if is_empty trimmed
    then default
    else if is_valid_id lower
    then lower
    else or_default default (sanitize_id lower)

unfoldable pub normalize_agent_id : Text → Text
unfolding normalize_id
normalize_agent_id = normalize_id default_agent_id

unfoldable pub normalize_account_id : Text → Text
unfolding normalize_id
normalize_account_id = normalize_id default_account_id
