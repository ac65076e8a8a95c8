-- ===== src/Tests/Routing.antt =====
-- The routing of pkg/routing on a configuration with two agents.
use nook_claw.Prelude.{◌<◌, ◌≡◌, refl, true, false, none, some, [], ◌∷◌, All, length, arith}
use nook_claw.Prelude.Text.{Text, codes, is_empty, trim_space, to_lower, text_eq}
use nook_claw.Routing.AgentId.{normalize_agent_id, normalize_account_id}
use nook_claw.Routing.AgentId.Laws.{IsId, normalize-IsId}
use nook_claw.Routing.AgentId.Normal.{normalize_agent_id_idem}
use nook_claw.Routing.SessionKey.{
  per_peer, SessionKeyParams, build_agent_peer_session_key, direct_peer_id,
}
use nook_claw.Routing.SessionKey.Keys.{ReadsAs, parse-build_agent_peer_session_key}
use nook_claw.Routing.SessionKey.Isolation.{direct, same_session_same_peer}
use nook_claw.Routing.Route.{
  RouteInput, MatchedBy, AgentConfig, Config, bindings_for, resolve_default_agent_id, resolve_route,
  pick_agent_id,
}
use nook_claw.Routing.Route.Cascade.{Wins, resolve_route-Wins}
use nook_claw.Routing.Route.Agents.{IsAgent, IsShort, resolve_route-IsAgent}

normalize-IsId_example :
    IsId (normalize_agent_id (codes "My Agent!")) × IsId (normalize_account_id (codes "My Agent!"))
normalize-IsId_example = normalize-IsId (codes "My Agent!")

my_agent : normalize_agent_id (codes " My Agent! ") ≡ codes "my-agent"
unfolding normalize_agent_id trim_space to_lower is_empty
my_agent = refl

sales_short : length (normalize_agent_id (codes "Sales")) < 64
unfolding normalize_agent_id trim_space to_lower is_empty
sales_short = omega arith

normalize_agent_id_idem_example :
    normalize_agent_id (normalize_agent_id (codes "Sales")) ≡ normalize_agent_id (codes "Sales")
normalize_agent_id_idem_example = normalize_agent_id_idem (codes "Sales") sales_short

abbrev params : SessionKeyParams
params = record {
  agent_id = codes "Sales";
  channel = codes "telegram";
  account_id = codes "bot";
  peer = some (direct (codes "User1"));
  dm_scope = per_peer;
  identity_links = [];
}

parse-build_agent_peer_session_key_example :
    ReadsAs (normalize_agent_id (codes "Sales")) (build_agent_peer_session_key params)
parse-build_agent_peer_session_key_example = parse-build_agent_peer_session_key params sales_short

user_present :
    (direct_peer_id per_peer params (codes "User1") ≡ codes "user1")
    × (is_empty (direct_peer_id per_peer params (codes "User1")) ≡ false)
    × (is_empty (direct_peer_id per_peer params (codes "USER1")) ≡ false)
unfolding direct_peer_id trim_space to_lower is_empty
user_present = (refl, refl, refl)

one_session :
    build_agent_peer_session_key (record params { peer = some (direct (codes "User1")) })
    ≡ build_agent_peer_session_key (record params { peer = some (direct (codes "USER1")) })
unfolding build_agent_peer_session_key trim_space text_eq to_lower is_empty
one_session = refl

same_session_same_peer_example :
    direct_peer_id per_peer params (codes "User1") ≡ direct_peer_id per_peer params (codes "USER1")
same_session_same_peer_example =
    same_session_same_peer params (codes "User1") (codes "USER1") refl user_present.1 user_present.2
      one_session

abbrev main_agent : AgentConfig
main_agent = record { id = codes "main"; is_default = true }

abbrev sales_agent : AgentConfig
sales_agent = record { id = codes "Sales"; is_default = false }

abbrev config : Config
config = record {
  agents = main_agent ∷ sales_agent ∷ [];
  bindings =
      record {
        agent_id = codes "sales";
        criteria = record {
          channel = codes "telegram";
          account_id = codes "*";
          peer = none;
          guild_id = [];
          team_id = [];
        };
      }
      ∷ [];
  dm_scope = per_peer;
  identity_links = [];
}

abbrev message : RouteInput
message = record {
  channel = codes "Telegram";
  account_id = [];
  peer = some (direct (codes "User1"));
  parent_peer = none;
  guild_id = [];
  team_id = [];
}

resolve_route-Wins_example :
    (chosen : Text × MatchedBy) × Wins message
      (bindings_for config message)
      (resolve_default_agent_id config.agents)
      chosen
    × ((resolve_route config message).matched_by ≡ chosen.1)
    × ((resolve_route config message).agent_id ≡ pick_agent_id config.agents chosen.0)
resolve_route-Wins_example = resolve_route-Wins config message

both-IsShort : All IsShort (main_agent ∷ sales_agent ∷ [])
unfolding normalize_agent_id trim_space to_lower is_empty
both-IsShort = (omega arith, (omega arith, tt))

resolve_route-IsAgent_example :
    IsAgent (main_agent ∷ sales_agent ∷ []) (resolve_route config message).agent_id
resolve_route-IsAgent_example =
    resolve_route-IsAgent config message main_agent (sales_agent ∷ []) refl both-IsShort

sales_by_channel : (resolve_route config message).agent_id ≡ codes "sales"
unfolding resolve_route trim_space to_lower text_eq is_empty normalize_agent_id normalize_account_id
sales_by_channel = refl
