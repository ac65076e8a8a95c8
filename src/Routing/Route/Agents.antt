-- ===== src/Routing/Route/Agents.antt =====
-- The agents that ResolveRoute of pkg/routing/route.go gives.
use nook_claw.Prelude.{
  ◌<◌, ◌≡◌, ◌⊎◌, refl, sym, ap, ◌∙◌, subst, true, not, ◌&&◌, Option, none, some, List, [], ◌∷◌, All,
  length, arith, Bool-cases, inl, inr,
}
use nook_claw.Prelude.Text.{Text, text_eq, text_eq_iff, is_empty, trim_space}
use nook_claw.Prelude.Text.Laws.{trim_space_idem}
use nook_claw.Routing.AgentId.{default_agent_id, normalize_id, normalize_agent_id}
use nook_claw.Routing.AgentId.Normal.{normalize_agent_id_idem}
use nook_claw.Routing.Route.{
  RouteInput, AgentConfig, Config, cascade, first_default, default_or, resolve_default_agent_id,
  has_agent, pick_agent_id, choose, bindings_for, resolve_route,
}

-- The text is the normalised id of one of the agents.
abbrev pub IsAgent : List AgentConfig → Text → Type 0
IsAgent [] id = ⊥
IsAgent (a ∷ agents) id = (normalize_agent_id a.id ≡ id) ⊎ IsAgent agents id

-- The normalised id is not cut off at 64 characters.
abbrev pub IsShort : AgentConfig → Type 0
IsShort a = length (normalize_agent_id a.id) < 64

normalize-trim_space : (id : Text) → normalize_agent_id (trim_space id) ≡ normalize_agent_id id
unfolding normalize_agent_id normalize_id
normalize-trim_space id = rw (trim_space_idem id) refl

normalize_blank :
    (id : Text) → is_empty (trim_space id) ≡ true → normalize_agent_id id ≡ default_agent_id
unfolding normalize_agent_id normalize_id
normalize_blank id h = rw h

has_agent-IsAgent :
    (id : Text) (agents : List AgentConfig) → has_agent id agents ≡ true → IsAgent agents id
unfolding has_agent
has_agent-IsAgent id [] h = absurd (ground arith)
has_agent-IsAgent id (a ∷ agents) h = elim (Bool-cases (text_eq (normalize_agent_id a.id) id)) [
  | inl e ↦ inl ((text_eq_iff (normalize_agent_id a.id) id).0 e)
  | inr e ↦ inr (has_agent-IsAgent id agents (ground arith))
]

abbrev IsAgentOr : List AgentConfig → Option Text → Type 0
IsAgentOr agents none = Unit
IsAgentOr agents (some id) = IsAgent agents id

IsAgentOr-cons :
    (a : AgentConfig) (agents : List AgentConfig) (o : Option Text)
    → IsAgentOr agents o
    → IsAgentOr (a ∷ agents) o
IsAgentOr-cons a agents none h = tt
IsAgentOr-cons a agents (some id) h = inr h

first_default-IsAgentOr : (agents : List AgentConfig) → IsAgentOr agents (first_default agents)
unfolding first_default
first_default-IsAgentOr [] = tt
first_default-IsAgentOr (a ∷ agents) =
    elim (Bool-cases (a.is_default && not (is_empty (trim_space a.id)))) [
      | inl e ↦ rw e (inl (sym (normalize-trim_space a.id)))
      | inr e ↦
          rw e (IsAgentOr-cons a agents (first_default agents) (first_default-IsAgentOr agents))
    ]

default_or-IsAgent :
    (a : AgentConfig) (agents : List AgentConfig) (o : Option Text)
    → IsAgentOr (a ∷ agents) o
    → IsAgent (a ∷ agents) (default_or o a.id)
default_or-IsAgent a agents (some id) h = h
default_or-IsAgent a agents none h = elim (Bool-cases (is_empty (trim_space a.id))) [
  | inl e ↦ rw e (inl (normalize_blank a.id e))
  | inr e ↦ rw e (inl (sym (normalize-trim_space a.id)))
]

IsAgent-settled :
    (agents : List AgentConfig) (id : Text)
    → All IsShort agents
    → IsAgent agents id
    → normalize_agent_id id ≡ id
IsAgent-settled [] id h k = absurd k
IsAgent-settled (a ∷ agents) id h (inl e) =
    ap normalize_agent_id (sym e) ∙ normalize_agent_id_idem a.id h.0 ∙ e
IsAgent-settled (a ∷ agents) id h (inr k) = IsAgent-settled agents id h.1 k

module _ (a : AgentConfig) (agents : List AgentConfig) (short : All IsShort (a ∷ agents)) where
  default-IsAgent :
      IsAgent (a ∷ agents) (normalize_agent_id (resolve_default_agent_id (a ∷ agents)))
  unfolding resolve_default_agent_id
  default-IsAgent =
      let id = resolve_default_agent_id (a ∷ agents) in
      let known =
        default_or-IsAgent a agents (first_default (a ∷ agents))
          (first_default-IsAgentOr (a ∷ agents)) in
      subst (IsAgent (a ∷ agents)) (sym (IsAgent-settled (a ∷ agents) id short known)) known

  pick_agent_id-IsAgent : (id : Text) → IsAgent (a ∷ agents) (pick_agent_id (a ∷ agents) id)
  unfolding pick_agent_id
  pick_agent_id-IsAgent id =
      let normalized = normalize_agent_id (trim_space id) in
      elim (Bool-cases (is_empty (trim_space id))) [
        | inl e ↦ rw e default-IsAgent
        | inr e ↦ elim (Bool-cases (has_agent normalized (a ∷ agents))) [
          | inl k ↦ rw (e, k) (has_agent-IsAgent normalized (a ∷ agents) k)
          | inr k ↦ rw (e, k) default-IsAgent
        ]
      ]

-- Where the configuration lists agents, none of whose normalised ids is cut off at 64 characters,
-- the agent of every route is one of them, whatever agent the bindings name.
pub resolve_route-IsAgent :
    (cfg : Config) (input : RouteInput) (a : AgentConfig) (agents : List AgentConfig)
    → cfg.agents ≡ a ∷ agents
    → All IsShort (a ∷ agents)
    → IsAgent (a ∷ agents) (resolve_route cfg input).agent_id
unfolding resolve_route choose
resolve_route-IsAgent cfg input a agents listed short =
    let chosen = cascade (bindings_for cfg input) input (resolve_default_agent_id cfg.agents) in
    subst (λ (l : List AgentConfig). IsAgent (a ∷ agents) (pick_agent_id l chosen.0)) (sym listed)
      (pick_agent_id-IsAgent a agents short chosen.0)
