-- ===== src/Routing/Route.antt =====
-- pkg/routing/route.go: the bindings of the configuration, and the cascade that picks one.
pub mod Cascade
pub mod Agents
use nook_claw.Prelude.{
  ℕ, Bool, true, false, not, ◌||◌, ◌&&◌, Option, none, some, List, [], ◌∷◌, if◌then◌else◌,
}
use nook_claw.Prelude.Text.{Text, codes, text_eq, is_empty, trim_space, to_lower}
use nook_claw.Routing.AgentId.{
  default_agent_id, default_account_id, normalize_agent_id, normalize_account_id,
}
use nook_claw.Routing.SessionKey.{
  DmScope, RoutePeer, IdentityLinks, scope_or_main, build_agent_main_session_key,
  build_agent_peer_session_key,
}

pub record RouteInput : Type 0 where
  pub channel : Text
  pub account_id : Text
  pub peer : Option RoutePeer
  pub parent_peer : Option RoutePeer
  pub guild_id : Text
  pub team_id : Text

-- The texts of ResolvedRoute.MatchedBy.
pub data MatchedBy : Type 0 where
  binding_peer binding_peer_parent binding_guild binding_team binding_account binding_channel
        default :
      MatchedBy

pub record ResolvedRoute : Type 0 where
  pub agent_id : Text
  pub channel : Text
  pub account_id : Text
  pub session_key : Text
  pub main_session_key : Text
  pub matched_by : MatchedBy

pub record BindingMatch : Type 0 where
  pub channel : Text
  pub account_id : Text
  pub peer : Option RoutePeer
  pub guild_id : Text
  pub team_id : Text

pub record AgentBinding : Type 0 where
  pub agent_id : Text
  pub criteria : BindingMatch

pub record AgentConfig : Type 0 where
  pub id : Text
  pub is_default : Bool

-- What the resolver reads of config.Config.
pub record Config : Type 0 where
  pub agents : List AgentConfig
  pub bindings : List AgentBinding
  pub dm_scope : DmScope
  pub identity_links : IdentityLinks

unfoldable pub matches_account_id : Text → Text → Bool
matches_account_id match_account_id actual =
    let trimmed = trim_space match_account_id in
    if is_empty trimmed
    then text_eq actual default_account_id
    else if text_eq trimmed (codes "*")
    then true
    else text_eq (to_lower trimmed) (to_lower actual)

unfoldable pub is_for : Text → Text → AgentBinding → Bool
unfolding matches_account_id
is_for channel account_id b =
    let match_channel = to_lower (trim_space b.criteria.channel) in
    not (is_empty match_channel || not (text_eq match_channel channel))
    && matches_account_id b.criteria.account_id account_id

unfoldable pub filter_bindings : Text → Text → List AgentBinding → List AgentBinding
filter_bindings channel account_id [] = []
filter_bindings channel account_id (b ∷ bs) =
    let rest = filter_bindings channel account_id bs in
    if is_for channel account_id b then b ∷ rest else rest

-- The loop of every find function.
unfoldable pub find_binding : (AgentBinding → Bool) → List AgentBinding → Option AgentBinding
find_binding p [] = none
find_binding p (b ∷ bs) = let rest = find_binding p bs in if p b then some b else rest

abbrev pub peer_matches : RoutePeer → Option RoutePeer → Bool
peer_matches peer none = false
peer_matches peer (some m) =
    let kind = to_lower (trim_space m.kind) in
    let id = trim_space m.id in
    not (is_empty kind || is_empty id) && (text_eq kind (to_lower peer.kind) && text_eq id peer.id)

abbrev pub is_peer_match : RoutePeer → AgentBinding → Bool
is_peer_match peer b = peer_matches peer b.criteria.peer

abbrev pub is_guild_match : Text → AgentBinding → Bool
is_guild_match guild_id b =
    let match_guild = trim_space b.criteria.guild_id in
    not (is_empty match_guild) && text_eq match_guild guild_id

abbrev pub is_team_match : Text → AgentBinding → Bool
is_team_match team_id b =
    let match_team = trim_space b.criteria.team_id in
    not (is_empty match_team) && text_eq match_team team_id

abbrev pub has_peer : Option RoutePeer → Bool
has_peer none = false
has_peer (some peer) = true

-- The binding names more than a channel and an account.
abbrev pub is_specific : AgentBinding → Bool
is_specific b =
    has_peer b.criteria.peer
    || not (is_empty b.criteria.guild_id)
    || not (is_empty b.criteria.team_id)

abbrev pub is_account_match : AgentBinding → Bool
is_account_match b =
    not (text_eq (trim_space b.criteria.account_id) (codes "*")) && not (is_specific b)

abbrev pub is_wildcard_match : AgentBinding → Bool
is_wildcard_match b = text_eq (trim_space b.criteria.account_id) (codes "*") && not (is_specific b)

abbrev pub find_peer_match : List AgentBinding → Option RoutePeer → Option AgentBinding
find_peer_match bindings none = none
find_peer_match bindings (some peer) =
    if is_empty (trim_space peer.id) then none else find_binding (is_peer_match peer) bindings

abbrev pub find_guild_match : List AgentBinding → Text → Option AgentBinding
find_guild_match bindings guild_id =
    let guild = trim_space guild_id in
    if is_empty guild then none else find_binding (is_guild_match guild) bindings

abbrev pub find_team_match : List AgentBinding → Text → Option AgentBinding
find_team_match bindings team_id =
    let team = trim_space team_id in
    if is_empty team then none else find_binding (is_team_match team) bindings

-- One of the returns of ResolveRoute, and what follows it: the agent and the level that matched.
abbrev pub or_next : Option AgentBinding → MatchedBy → Text × MatchedBy → Text × MatchedBy
or_next none by next = next
or_next (some b) by next = (b.agent_id, by)

unfoldable pub cascade : List AgentBinding → RouteInput → Text → Text × MatchedBy
unfolding find_binding
cascade bindings input default_id = or_next (find_peer_match bindings input.peer) binding_peer (
    or_next (find_peer_match bindings input.parent_peer) binding_peer_parent (
      or_next (find_guild_match bindings input.guild_id) binding_guild (
        or_next (find_team_match bindings input.team_id) binding_team (
          or_next (find_binding is_account_match bindings) binding_account (
            or_next (find_binding is_wildcard_match bindings) binding_channel
              (default_id, default))))))

-- The id of the first agent that is marked as the default and has an id.
unfoldable pub first_default : List AgentConfig → Option Text
first_default [] = none
first_default (a ∷ agents) =
    let rest = first_default agents in
    let id = trim_space a.id in
    if a.is_default && not (is_empty id) then some (normalize_agent_id id) else rest

abbrev pub default_or : Option Text → Text → Text
default_or (some id) first = id
default_or none first =
    let id = trim_space first in if is_empty id then default_agent_id else normalize_agent_id id

unfoldable pub resolve_default_agent_id : List AgentConfig → Text
unfolding first_default
resolve_default_agent_id [] = default_agent_id
resolve_default_agent_id (a ∷ agents) = default_or (first_default (a ∷ agents)) a.id

unfoldable pub has_agent : Text → List AgentConfig → Bool
has_agent normalized [] = false
has_agent normalized (a ∷ agents) =
    text_eq (normalize_agent_id a.id) normalized || has_agent normalized agents

abbrev pub is_nil : List AgentConfig → Bool
is_nil [] = true
is_nil (a ∷ agents) = false

unfoldable pub pick_agent_id : List AgentConfig → Text → Text
unfolding has_agent resolve_default_agent_id
pick_agent_id agents agent_id =
    let trimmed = trim_space agent_id in
    let normalized = normalize_agent_id trimmed in
    if is_empty trimmed
    then normalize_agent_id (resolve_default_agent_id agents)
    else if is_nil agents || has_agent normalized agents
    then normalized
    else normalize_agent_id (resolve_default_agent_id agents)

-- `choose` of ResolveRoute.
unfoldable pub choose : Config → RouteInput → Text × MatchedBy → ResolvedRoute
unfolding pick_agent_id
choose cfg input (agent_id, matched_by) =
    let channel = to_lower (trim_space input.channel) in
    let account_id = normalize_account_id input.account_id in
    let resolved = pick_agent_id cfg.agents agent_id in
    record {
      agent_id = resolved;
      channel = channel;
      account_id = account_id;
      session_key = to_lower (
          build_agent_peer_session_key (record {
            agent_id = resolved;
            channel = channel;
            account_id = account_id;
            peer = input.peer;
            dm_scope = scope_or_main cfg.dm_scope;
            identity_links = cfg.identity_links;
          }));
      main_session_key = to_lower (build_agent_main_session_key resolved);
      matched_by = matched_by;
    }

-- The bindings of the configuration that are for the message's channel and account.
unfoldable pub bindings_for : Config → RouteInput → List AgentBinding
unfolding filter_bindings is_for
bindings_for cfg input =
    filter_bindings (to_lower (trim_space input.channel)) (normalize_account_id input.account_id)
      cfg.bindings

unfoldable pub resolve_route : Config → RouteInput → ResolvedRoute
unfolding choose cascade bindings_for
resolve_route cfg input =
    choose cfg input (cascade (bindings_for cfg input) input (resolve_default_agent_id cfg.agents))
