-- ===== src/Routing/Route/Cascade.antt =====
-- The choice of a binding by ResolveRoute of pkg/routing/route.go.
use nook_claw.Prelude.{
  ℕ, zero, suc, ◌+◌, ◌<◌, ◌≡◌, ◌⊎◌, refl, ap, subst, Bool, true, false, not, ◌&&◌, Option, none,
  some, List, [], ◌∷◌, ◌++◌, All, arith, Bool-cases, inl, inr, if◌then◌else◌, ◌==◌,
}
use nook_claw.Prelude.Text.{Text, is_empty, trim_space}
use nook_claw.Routing.SessionKey.{RoutePeer}
use nook_claw.Routing.Route.{
  RouteInput, MatchedBy, binding_peer, binding_peer_parent, binding_guild, binding_team,
  binding_account, binding_channel, default, AgentBinding, Config, find_binding, is_peer_match,
  is_guild_match, is_team_match, is_account_match, is_wildcard_match, find_peer_match, or_next,
  cascade, resolve_default_agent_id, pick_agent_id, choose, bindings_for, resolve_route,
}

-- "peer > parent_peer > guild > team > account > channel_wildcard > default"
abbrev pub priority : MatchedBy → ℕ
priority binding_peer = 1
priority binding_peer_parent = 2
priority binding_guild = 3
priority binding_team = 4
priority binding_account = 5
priority binding_channel = 6
priority default = 7

abbrev pub is_for_peer : Option RoutePeer → AgentBinding → Bool
is_for_peer none b = false
is_for_peer (some peer) b = not (is_empty (trim_space peer.id)) && is_peer_match peer b

-- The binding matches the message at the level of this priority.
abbrev pub matches_at : RouteInput → ℕ → AgentBinding → Bool
matches_at input k b =
    if k == 1
    then is_for_peer input.peer b
    else if k == 2
    then is_for_peer input.parent_peer b
    else if k == 3
    then not (is_empty (trim_space input.guild_id)) && is_guild_match (trim_space input.guild_id) b
    else if k == 4
    then not (is_empty (trim_space input.team_id)) && is_team_match (trim_space input.team_id) b
    else if k == 5
    then is_account_match b
    else if k == 6
    then is_wildcard_match b
    else false

abbrev pub Nowhere : (AgentBinding → Bool) → List AgentBinding → Type 0
Nowhere p = All (λ b. p b ≡ false)

-- The binding is the first of the list for which the test holds.
pub record IsFirst (p : AgentBinding → Bool) (bs : List AgentBinding) (b : AgentBinding)
    : Type 0 where
  pub before : List AgentBinding
  pub after : List AgentBinding
  pub split : bs ≡ before ++ b ∷ after
  pub none_before : Nowhere p before
  pub holds : p b ≡ true

-- What a search gives: nothing, where nothing passes the test, or the first that does.
abbrev Finds : (AgentBinding → Bool) → List AgentBinding → Option AgentBinding → Type 0
Finds p bs none = Nowhere p bs
Finds p bs (some b) = IsFirst p bs b

Finds-cons :
    (p : AgentBinding → Bool) (b : AgentBinding) (bs : List AgentBinding) (o : Option AgentBinding)
    → p b ≡ false
    → Finds p bs o
    → Finds p (b ∷ bs) o
Finds-cons p b bs none e h = (e, h)
Finds-cons p b bs (some c) e h = record {
  before = b ∷ h.before;
  after = h.after;
  split = ap (◌∷◌ b) h.split;
  none_before = (e, h.none_before);
  holds = h.holds;
}

find_binding-Finds :
    (p : AgentBinding → Bool) (bs : List AgentBinding) → Finds p bs (find_binding p bs)
unfolding find_binding
find_binding-Finds p [] = tt
find_binding-Finds p (b ∷ bs) = elim (Bool-cases (p b)) [
  | inl e ↦ rw e (record { before = []; after = bs; split = refl; none_before = tt; holds = e })
  | inr e ↦ rw e (Finds-cons p b bs (find_binding p bs) e (find_binding-Finds p bs))
]

Nowhere-false : (bs : List AgentBinding) → Nowhere (λ b. false) bs
Nowhere-false [] = tt
Nowhere-false (b ∷ bs) = (refl, Nowhere-false bs)

-- A search that is made only where the message has the identifier.
guarded-Finds :
    (absent : Bool) (p : AgentBinding → Bool) (bs : List AgentBinding)
    → Finds (λ b. not absent && p b) bs (if absent then none else find_binding p bs)
guarded-Finds true p bs = Nowhere-false bs
guarded-Finds false p bs = find_binding-Finds p bs

find_peer_match-Finds :
    (bs : List AgentBinding) (peer : Option RoutePeer)
    → Finds (is_for_peer peer) bs (find_peer_match bs peer)
find_peer_match-Finds bs none = Nowhere-false bs
find_peer_match-Finds bs (some peer) =
    guarded-Finds (is_empty (trim_space peer.id)) (is_peer_match peer) bs

module _ (input : RouteInput) (bs : List AgentBinding) (default_id : Text) where
  abbrev NoneBelow : ℕ → Type 0
  NoneBelow n = (k : ℕ) → k < n → Nowhere (matches_at input k) bs

  -- No binding matches at a level before that of the choice, which is the first binding of its
  -- level, or the default agent.
  pub record Wins (chosen : Text × MatchedBy) : Type 0 where
    pub none_below : (k : ℕ) → k < priority chosen.1 → Nowhere (matches_at input k) bs
    pub first :
        ((b : AgentBinding) × IsFirst (matches_at input (priority chosen.1)) bs b
          × (chosen.0 ≡ b.agent_id))
        ⊎ ((chosen.1 ≡ default) × (chosen.0 ≡ default_id))

  or_next-Wins :
      (by : MatchedBy) (o : Option AgentBinding) (next : Text × MatchedBy)
      → NoneBelow (priority by)
      → Finds (matches_at input (priority by)) bs o
      → (NoneBelow (priority by + 1) → Wins next)
      → Wins (or_next o by next)
  or_next-Wins by none next below h go = go (λ k lt. settle k lt (Bool-cases (k == priority by)))
    where
      settle :
          (k : ℕ)
          → k < priority by + 1
          → ((k == priority by) ≡ true) ⊎ ((k == priority by) ≡ false)
          → Nowhere (matches_at input k) bs
      settle k lt (inl e) =
          let same : priority by ≡ k = ground arith in
          subst (λ (n : ℕ). Nowhere (matches_at input n) bs) same h
      settle k lt (inr e) = below k (ground arith)
  or_next-Wins by (some b) next below h go = record { none_below = below; first = inl (b, h, refl) }

  NoneBelow-one : NoneBelow 1
  NoneBelow-one zero h = Nowhere-false bs
  NoneBelow-one (suc k) h = absurd (omega arith)

  cascade-Wins : Wins (cascade bs input default_id)
  unfolding cascade
  cascade-Wins =
      or_next-Wins binding_peer _ _ NoneBelow-one (find_peer_match-Finds bs input.peer) λ h1.
        or_next-Wins binding_peer_parent _ _ h1 (find_peer_match-Finds bs input.parent_peer) λ h2.
          or_next-Wins binding_guild _ _ h2
            (guarded-Finds (is_empty (trim_space input.guild_id))
              (is_guild_match (trim_space input.guild_id)) bs)
            λ h3.
              or_next-Wins binding_team _ _ h3
                (guarded-Finds (is_empty (trim_space input.team_id))
                  (is_team_match (trim_space input.team_id)) bs)
                λ h4.
                  or_next-Wins binding_account _ _ h4 (find_binding-Finds is_account_match bs) λ h5.
                    or_next-Wins binding_channel _ _ h5 (find_binding-Finds is_wildcard_match bs)
                      λ h6. record { none_below = h6; first = inr (refl, refl) }

-- The route is that of a choice by priority: no binding for the message's channel and account
-- matches at a more specific level, and the agent is picked from the first binding that matches at
-- the level of the route, or, where none matches at all, from the default agent.
pub resolve_route-Wins :
    (cfg : Config) (input : RouteInput)
    → (chosen : Text × MatchedBy) × Wins input
        (bindings_for cfg input)
        (resolve_default_agent_id cfg.agents)
        chosen
      × ((resolve_route cfg input).matched_by ≡ chosen.1)
      × ((resolve_route cfg input).agent_id ≡ pick_agent_id cfg.agents chosen.0)
unfolding resolve_route choose
resolve_route-Wins cfg input =
    let chosen = cascade (bindings_for cfg input) input (resolve_default_agent_id cfg.agents) in
    (
      chosen,
      cascade-Wins input (bindings_for cfg input) (resolve_default_agent_id cfg.agents),
      refl,
      refl,
    )
