-- ===== src/Routing/SessionKey.antt =====
-- pkg/routing/session_key.go: the key of the session that a message belongs to.
pub mod Keys
pub mod Isolation
use nook_claw.Prelude.{
  Bool, true, false, not, ◌||◌, ◌&&◌, Option, none, some, List, [], ◌∷◌, ◌++◌, ◌==◌, if◌then◌else◌,
}
use nook_claw.Prelude.Text.{Text, codes, text_eq, is_empty, trim_space, to_lower, has_prefix, cut}
use nook_claw.Routing.AgentId.{normalize_agent_id, normalize_account_id, default_main_key}

-- DMScope; `unset` is the empty string and `other_scope` any other text.
pub data DmScope : Type 0 where
  unset main per_peer per_channel_peer per_account_channel_peer other_scope : DmScope

pub record RoutePeer : Type 0 where
  pub kind : Text
  pub id : Text

-- A map of Go, in the order in which an iteration visits it.
abbrev pub IdentityLinks : Type 0
IdentityLinks = List (Text × List Text)

pub record SessionKeyParams : Type 0 where
  pub agent_id : Text
  pub channel : Text
  pub account_id : Text
  pub peer : Option RoutePeer
  pub dm_scope : DmScope
  pub identity_links : IdentityLinks

pub record ParsedSessionKey : Type 0 where
  pub agent_id : Text
  pub rest : Text

-- "agent:<agent>:<rest>"
abbrev pub agent_key : Text → Text → Text
agent_key agent rest = codes "agent:" ++ (agent ++ b':' ∷ rest)

unfoldable pub build_agent_main_session_key : Text → Text
build_agent_main_session_key agent_id = agent_key (normalize_agent_id agent_id) default_main_key

unfoldable pub normalize_channel : Text → Text
normalize_channel channel =
    let c = trim_space (to_lower channel) in if is_empty c then codes "unknown" else c

abbrev is_in : Text → List Text → Bool
is_in t [] = false
is_in t (c ∷ cs) = text_eq c t || is_in t cs

-- The bare id behind the first colon, where something stands on both sides.
abbrev pub bare_candidate : Option (Text × Text) → List Text
bare_candidate (some (b ∷ before, a ∷ after)) = (a ∷ after) ∷ []
bare_candidate _ = []

abbrev pub scoped_candidate : Text → Text → List Text
scoped_candidate channel peer_id = if is_empty channel then [] else (channel ++ b':' ∷ peer_id) ∷ []

unfoldable pub candidates : Text → Text → List Text
candidates channel peer_id =
    let raw = to_lower peer_id in
    raw ∷ scoped_candidate (to_lower (trim_space channel)) raw ++ bare_candidate (cut b':' raw)

abbrev pub is_linked : Text → List Text → Bool
is_linked id cs =
    let normalized = to_lower (trim_space id) in not (is_empty normalized) && is_in normalized cs

abbrev pub any_linked : List Text → List Text → Bool
any_linked [] cs = false
any_linked (id ∷ ids) cs = is_linked id cs || any_linked ids cs

unfoldable pub find_link : List Text → IdentityLinks → Text
find_link cs [] = []
find_link cs ((canonical, ids) ∷ links) =
    let rest = find_link cs links in
    let name = trim_space canonical in
    if is_empty name then rest else if any_linked ids cs then name else rest

unfoldable pub resolve_linked_peer_id : IdentityLinks → Text → Text → Text
unfolding find_link candidates
resolve_linked_peer_id [] channel peer_id = []
resolve_linked_peer_id (l ∷ links) channel peer_id =
    let id = trim_space peer_id in
    if is_empty id then [] else find_link (candidates channel id) (l ∷ links)

abbrev pub is_main : DmScope → Bool
is_main main = true
is_main _ = false

-- The default scope is main.
abbrev pub scope_or_main : DmScope → DmScope
scope_or_main unset = main
scope_or_main scope = scope

abbrev pub or_keep : Text → Text → Text
or_keep peer_id [] = peer_id
or_keep peer_id (c ∷ cs) = c ∷ cs

unfoldable pub direct_peer_id : DmScope → SessionKeyParams → Text → Text
unfolding resolve_linked_peer_id
direct_peer_id scope params id =
    let peer_id = trim_space id in
    to_lower (
      if not (is_main scope) && not (is_empty peer_id)
      then or_keep peer_id (resolve_linked_peer_id params.identity_links params.channel peer_id)
      else peer_id)

-- The switch on the scope, for a peer id that is not empty.
unfoldable pub key_by_scope : DmScope → SessionKeyParams → Text → Text → Text
unfolding normalize_channel build_agent_main_session_key
key_by_scope per_account_channel_peer params agent_id peer_id = agent_key agent_id (
    normalize_channel params.channel
    ++ (b':' ∷ (normalize_account_id params.account_id ++ (codes ":direct:" ++ peer_id))))
key_by_scope per_channel_peer params agent_id peer_id =
    agent_key agent_id (normalize_channel params.channel ++ (codes ":direct:" ++ peer_id))
key_by_scope per_peer params agent_id peer_id = agent_key agent_id (codes "direct:" ++ peer_id)
key_by_scope _ params agent_id peer_id = build_agent_main_session_key agent_id

abbrev pub peer_or_direct : Option RoutePeer → RoutePeer
peer_or_direct none = record { kind = codes "direct"; id = [] }
peer_or_direct (some peer) = peer

abbrev pub or_direct : Text → Text
or_direct [] = codes "direct"
or_direct (c ∷ cs) = c ∷ cs

abbrev pub or_unknown : Text → Text
or_unknown [] = codes "unknown"
or_unknown (c ∷ cs) = c ∷ cs

unfoldable pub direct_key : SessionKeyParams → Text → Text
unfolding direct_peer_id key_by_scope
direct_key params id =
    let agent_id = normalize_agent_id params.agent_id in
    let scope = scope_or_main params.dm_scope in
    let peer_id = direct_peer_id scope params id in
    if is_empty peer_id
    then build_agent_main_session_key agent_id
    else key_by_scope scope params agent_id peer_id

unfoldable pub build_agent_peer_session_key : SessionKeyParams → Text
unfolding direct_key normalize_channel
build_agent_peer_session_key params =
    let peer = peer_or_direct params.peer in
    let kind = or_direct (trim_space peer.kind) in
    if text_eq kind (codes "direct")
    then direct_key params peer.id
    else agent_key (normalize_agent_id params.agent_id) (
        normalize_channel params.channel
        ++ (b':' ∷ (kind ++ (b':' ∷ or_unknown (to_lower (trim_space peer.id))))))

abbrev pub parsed : Text → Text → Text → Option ParsedSessionKey
parsed head agent rest =
    let agent_id = trim_space agent in
    if not (text_eq head (codes "agent")) || is_empty agent_id || is_empty rest
    then none
    else some (record { agent_id = agent_id; rest = rest })

-- Behind the first colon: the second one, which strings.SplitN(raw, ":", 3) needs too.
abbrev pub parse_parts : Text → Option (Text × Text) → Option ParsedSessionKey
parse_parts head none = none
parse_parts head (some (agent, rest)) = parsed head agent rest

abbrev pub parse_split : Option (Text × Text) → Option ParsedSessionKey
parse_split none = none
parse_split (some (head, tail)) = parse_parts head (cut b':' tail)

unfoldable pub parse_agent_session_key : Text → Option ParsedSessionKey
parse_agent_session_key session_key =
    let raw = trim_space session_key in if is_empty raw then none else parse_split (cut b':' raw)

abbrev pub is_subagent : Text → Bool
is_subagent t = has_prefix (to_lower t) (codes "subagent:")

abbrev pub rest_is_subagent : Option ParsedSessionKey → Bool
rest_is_subagent none = false
rest_is_subagent (some p) = is_subagent p.rest

unfoldable pub is_subagent_session_key : Text → Bool
is_subagent_session_key session_key =
    let raw = trim_space session_key in
    not (is_empty raw) && (is_subagent raw || rest_is_subagent (parse_agent_session_key raw))
