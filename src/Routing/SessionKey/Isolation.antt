-- ===== src/Routing/SessionKey/Isolation.antt =====
-- Which direct messages share a session under the scopes of pkg/routing/session_key.go.
use mathlib.Core.List.{append_cancel_left}
use nook_claw.Prelude.{◌≡◌, refl, sym, ◌∙◌, Bool, true, false, some, [], ◌∷◌, ◌++◌, arith}
use nook_claw.Prelude.Text.{Text, codes, text_eq, is_empty, trim_space}
use nook_claw.Routing.AgentId.{normalize_agent_id, normalize_account_id}
use nook_claw.Routing.SessionKey.{
  DmScope, unset, main, per_peer, per_channel_peer, per_account_channel_peer, other_scope,
  RoutePeer, SessionKeyParams, agent_key, normalize_channel, scope_or_main, direct_peer_id,
  key_by_scope, direct_key, build_agent_peer_session_key,
}

abbrev pub direct : Text → RoutePeer
direct id = record { kind = codes "direct"; id = id }

-- A session for each peer.
abbrev pub isolates : DmScope → Bool
isolates per_peer = true
isolates per_channel_peer = true
isolates per_account_channel_peer = true
isolates _ = false

agent_key_cancel : (agent r s : Text) → agent_key agent r ≡ agent_key agent s → r ≡ s
agent_key_cancel agent r s h = append_cancel_left (b':' ∷ []) r s (
    append_cancel_left agent (b':' ∷ r) (b':' ∷ s)
      (append_cancel_left (codes "agent:") (agent ++ b':' ∷ r) (agent ++ b':' ∷ s) h))

key_by_scope_cancel :
    (scope : DmScope) (params : SessionKeyParams) (agent p q : Text)
    → isolates scope ≡ true
    → key_by_scope scope params agent p ≡ key_by_scope scope params agent q
    → p ≡ q
unfolding key_by_scope
key_by_scope_cancel per_peer params agent p q i h =
    append_cancel_left (codes "direct:") p q (agent_key_cancel agent _ _ h)
key_by_scope_cancel per_channel_peer params agent p q i h =
    append_cancel_left (codes ":direct:") p q
      (append_cancel_left (normalize_channel params.channel) _ _ (agent_key_cancel agent _ _ h))
key_by_scope_cancel per_account_channel_peer params agent p q i h =
    append_cancel_left (codes ":direct:") p q (
      append_cancel_left (normalize_account_id params.account_id) _ _ (
        append_cancel_left (b':' ∷ []) _ _ (
          append_cancel_left (normalize_channel params.channel) _ _
            (agent_key_cancel agent _ _ h))))
key_by_scope_cancel unset params agent p q i h = absurd (ground arith)
key_by_scope_cancel main params agent p q i h = absurd (ground arith)
key_by_scope_cancel other_scope params agent p q i h = absurd (ground arith)

isolating_scope : (scope : DmScope) → isolates scope ≡ true → scope_or_main scope ≡ scope
isolating_scope unset i = absurd (ground arith)
isolating_scope _ i = refl

-- The direct key of a peer id that is not empty.
direct_key-nonempty :
    (params : SessionKeyParams) (id : Text)
    → isolates params.dm_scope ≡ true
    → is_empty (direct_peer_id params.dm_scope params id) ≡ false
    → direct_key params id
      ≡ key_by_scope params.dm_scope params
          (normalize_agent_id params.agent_id)
          (direct_peer_id params.dm_scope params id)
unfolding direct_key
direct_key-nonempty params id i e = rw (isolating_scope params.dm_scope i, e)

key_by_scope-peer :
    (scope : DmScope) (params : SessionKeyParams) (peer : RoutePeer) (agent p : Text)
    → key_by_scope scope (record params { peer = some peer }) agent p
      ≡ key_by_scope scope params agent p
unfolding key_by_scope
key_by_scope-peer unset params peer agent p = refl
key_by_scope-peer main params peer agent p = refl
key_by_scope-peer per_peer params peer agent p = refl
key_by_scope-peer per_channel_peer params peer agent p = refl
key_by_scope-peer per_account_channel_peer params peer agent p = refl
key_by_scope-peer other_scope params peer agent p = refl

peer_key-direct :
    (params : SessionKeyParams) (id : Text)
    → build_agent_peer_session_key (record params { peer = some (direct id) })
      ≡ direct_key (record params { peer = some (direct id) }) id
unfolding build_agent_peer_session_key trim_space text_eq
peer_key-direct params id = refl

-- The key of a direct message, from the scope and the peer id.
direct_message_key :
    (params : SessionKeyParams) (id : Text)
    → isolates params.dm_scope ≡ true
    → is_empty (direct_peer_id params.dm_scope params id) ≡ false
    → build_agent_peer_session_key (record params { peer = some (direct id) })
      ≡ key_by_scope params.dm_scope params
          (normalize_agent_id params.agent_id)
          (direct_peer_id params.dm_scope params id)
unfolding direct_peer_id
direct_message_key params id i e =
    let p = record params { peer = some (direct id) } in
    peer_key-direct params id
    ∙ direct_key-nonempty p id i e
    ∙ key_by_scope-peer params.dm_scope params (direct id) _ _

-- Under a scope with a session for each peer, two direct messages to one agent, over one channel
-- and account, share a session only if their peers are one: the ids are equal after the identity
-- links are resolved and upper case is dropped.
pub same_session_same_peer :
    (params : SessionKeyParams) (id1 id2 : Text)
    → isolates params.dm_scope ≡ true
    → is_empty (direct_peer_id params.dm_scope params id1) ≡ false
    → is_empty (direct_peer_id params.dm_scope params id2) ≡ false
    → build_agent_peer_session_key (record params { peer = some (direct id1) })
      ≡ build_agent_peer_session_key (record params { peer = some (direct id2) })
    → direct_peer_id params.dm_scope params id1 ≡ direct_peer_id params.dm_scope params id2
same_session_same_peer params id1 id2 i e1 e2 h =
    key_by_scope_cancel params.dm_scope params (normalize_agent_id params.agent_id) _ _ i
      (sym (direct_message_key params id1 i e1) ∙ h ∙ direct_message_key params id2 i e2)
