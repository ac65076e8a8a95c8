-- ===== src/Routing/SessionKey/Keys.antt =====
-- ParseAgentSessionKey of pkg/routing/session_key.go on the keys that the code builds.
use nook_claw.Prelude.{
  ◌<◌, ◌≡◌, ◌⊎◌, refl, ap, ◌∙◌, subst, true, false, some, List, [], ◌∷◌, ◌++◌, length, arith,
  Bool-cases, inl, inr,
}
use nook_claw.Prelude.Text.{
  Text, codes, text_eq, is_empty, is_space, trim_left, trim_right, trim_space, to_lower, cut,
}
use nook_claw.Prelude.Text.Laws.{trim_right_idem, trim_right-to_lower, trim_right-append}
use nook_claw.Routing.AgentId.{all_id_chars, normalize_agent_id, normalize_account_id}
use nook_claw.Routing.AgentId.Laws.{IsId, trim_space-id, normalize-IsId}
use nook_claw.Routing.AgentId.Normal.{normalize_agent_id_idem}
use nook_claw.Routing.SessionKey.{
  DmScope, unset, main, per_peer, per_channel_peer, per_account_channel_peer, other_scope,
  IdentityLinks, SessionKeyParams, agent_key, build_agent_main_session_key, normalize_channel,
  find_link, resolve_linked_peer_id, scope_or_main, or_keep, direct_peer_id, key_by_scope,
  peer_or_direct, or_direct, or_unknown, direct_key, build_agent_peer_session_key, parsed,
  parse_parts, parse_agent_session_key, candidates,
}

-- Not empty, and no space at the end.
abbrev pub IsEnd : Text → Type 0
IsEnd t = (trim_right t ≡ t) × (is_empty t ≡ false)

IsEnd-append : (s t : Text) → IsEnd t → IsEnd (s ++ t)
unfolding is_empty
IsEnd-append s t h = (
  trim_right-append s t (ap is_empty h.0 ∙ h.1) ∙ ap (λ (u : Text). s ++ u) h.0,
  nonempty s t h.1,
)
  where
    nonempty : (s t : Text) → is_empty t ≡ false → is_empty (s ++ t) ≡ false
    nonempty [] t h = h
    nonempty (c ∷ cs) t h = refl

cut-agent : (t rest : Text) → all_id_chars t ≡ true → cut b':' (t ++ b':' ∷ rest) ≡ some (t, rest)
unfolding cut all_id_chars
cut-agent [] rest h = refl
cut-agent (c ∷ cs) rest h = ground (arith, cut-agent cs rest)

cut_head : (rest : Text) → cut b':' (codes "agent:" ++ rest) ≡ some (codes "agent", rest)
unfolding cut
cut_head rest = refl

trim_space-key :
    (agent rest : Text) → IsEnd rest → trim_space (agent_key agent rest) ≡ agent_key agent rest
unfolding trim_space trim_left is_space
trim_space-key agent rest h =
    (IsEnd-append (codes "agent:") (agent ++ b':' ∷ rest)
      (IsEnd-append agent (b':' ∷ rest) (IsEnd-append (codes ":") rest h))).0

parsed-id :
    (agent rest : Text)
    → IsId agent
    → is_empty rest ≡ false
    → parsed (codes "agent") agent rest ≡ some (record { agent_id = agent; rest = rest })
unfolding text_eq is_empty
parsed-id [] rest h e = absurd (omega (arith, h.long))
parsed-id (c ∷ cs) rest h e = rw (trim_space-id (c ∷ cs) h.chars, e)

parse-agent_key :
    (agent rest : Text)
    → IsId agent
    → IsEnd rest
    → parse_agent_session_key (agent_key agent rest)
      ≡ some (record { agent_id = agent; rest = rest })
unfolding parse_agent_session_key is_empty
parse-agent_key agent rest h end =
    rw (trim_space-key agent rest end, cut_head (agent ++ b':' ∷ rest))
      (ap (parse_parts (codes "agent")) (cut-agent agent rest h.chars)
        ∙ parsed-id agent rest h end.1)

trim_right-trim_space : (t : Text) → trim_right (trim_space t) ≡ trim_space t
unfolding trim_space
trim_right-trim_space t = trim_right_idem (trim_left t)

trim_right-find_link :
    (cs : List Text) (links : IdentityLinks) → trim_right (find_link cs links) ≡ find_link cs links
unfolding find_link trim_right
trim_right-find_link cs [] = refl
trim_right-find_link cs ((canonical, ids) ∷ links) =
    ground (arith, trim_right-find_link cs links, trim_right-trim_space canonical)

trim_right-linked :
    (links : IdentityLinks) (channel t : Text)
    → trim_right (resolve_linked_peer_id links channel t) ≡ resolve_linked_peer_id links channel t
unfolding resolve_linked_peer_id trim_right
trim_right-linked [] channel t = refl
trim_right-linked (l ∷ links) channel t =
    ground (arith, trim_right-find_link (candidates channel (trim_space t)) (l ∷ links))

trim_right-or_keep :
    (t u : Text) → trim_right t ≡ t → trim_right u ≡ u → trim_right (or_keep t u) ≡ or_keep t u
trim_right-or_keep t [] h k = h
trim_right-or_keep t (c ∷ cs) h k = k

trim_right-lowered : (t : Text) → trim_right t ≡ t → trim_right (to_lower t) ≡ to_lower t
trim_right-lowered t h = trim_right-to_lower t ∙ ap to_lower h

trim_right-direct_peer_id :
    (scope : DmScope) (params : SessionKeyParams) (id : Text)
    → trim_right (direct_peer_id scope params id) ≡ direct_peer_id scope params id
unfolding direct_peer_id
trim_right-direct_peer_id scope params id =
    let t = trim_space id in
    let u = resolve_linked_peer_id params.identity_links params.channel t in
    let same = trim_right-trim_space id in
    trim_right-lowered _ (
      ground (
        arith,
        same,
        trim_right-or_keep t u same (trim_right-linked params.identity_links params.channel t),
      ))

or_unknown-IsEnd : (t : Text) → trim_right t ≡ t → IsEnd (or_unknown t)
unfolding trim_right is_empty is_space
or_unknown-IsEnd [] h = (refl, refl)
or_unknown-IsEnd (c ∷ cs) h = (h, refl)

-- The key is an agent's, whose id was normalised, once or twice.
record Keyed (agent key : Text) : Type 0 where
  rest : Text
  end : IsEnd rest
  split : key ≡ agent_key agent rest

abbrev KeyedTwice : Text → Text → Type 0
KeyedTwice id key =
    Keyed (normalize_agent_id id) key ⊎ Keyed (normalize_agent_id (normalize_agent_id id)) key

main-Keyed : (id : Text) → Keyed (normalize_agent_id id) (build_agent_main_session_key id)
unfolding build_agent_main_session_key trim_right is_empty is_space
main-Keyed id = record { rest = codes "main"; end = (refl, refl); split = refl }

key_by_scope-Keyed :
    (scope : DmScope) (params : SessionKeyParams) (peer_id : Text)
    → IsEnd peer_id
    → KeyedTwice params.agent_id
        (key_by_scope scope params (normalize_agent_id params.agent_id) peer_id)
unfolding key_by_scope
key_by_scope-Keyed per_account_channel_peer params peer_id h = inl (record {
  rest = _;
  end = IsEnd-append (normalize_channel params.channel) _ (
      IsEnd-append (codes ":") _ (
        IsEnd-append (normalize_account_id params.account_id) _
          (IsEnd-append (codes ":direct:") peer_id h)));
  split = refl;
})
key_by_scope-Keyed per_channel_peer params peer_id h = inl (record {
  rest = _;
  end =
      IsEnd-append (normalize_channel params.channel) _ (IsEnd-append (codes ":direct:") peer_id h);
  split = refl;
})
key_by_scope-Keyed per_peer params peer_id h =
    inl (record { rest = _; end = IsEnd-append (codes "direct:") peer_id h; split = refl })
key_by_scope-Keyed unset params peer_id h = inr (main-Keyed _)
key_by_scope-Keyed main params peer_id h = inr (main-Keyed _)
key_by_scope-Keyed other_scope params peer_id h = inr (main-Keyed _)

direct_key-Keyed :
    (params : SessionKeyParams) (id : Text) → KeyedTwice params.agent_id (direct_key params id)
unfolding direct_key
direct_key-Keyed params id =
    let scope = scope_or_main params.dm_scope in
    let peer_id = direct_peer_id scope params id in
    elim (Bool-cases (is_empty peer_id)) [
      | inl e ↦ rw e (inr (main-Keyed _))
      | inr e ↦
          rw e
            (key_by_scope-Keyed scope params peer_id (trim_right-direct_peer_id scope params id, e))
    ]

peer_key-Keyed :
    (params : SessionKeyParams) → KeyedTwice params.agent_id (build_agent_peer_session_key params)
unfolding build_agent_peer_session_key
peer_key-Keyed params =
    let peer = peer_or_direct params.peer in
    let kind = or_direct (trim_space peer.kind) in
    elim (Bool-cases (text_eq kind (codes "direct"))) [
      | inl e ↦ rw e (direct_key-Keyed params peer.id)
      | inr e ↦ rw e (
          inl (record {
            rest = _;
            end = IsEnd-append (normalize_channel params.channel) _ (
                IsEnd-append (codes ":") _ (
                  IsEnd-append kind _ (
                    IsEnd-append (codes ":") _ (
                      or_unknown-IsEnd _ (trim_right-lowered _ (trim_right-trim_space peer.id))))));
            split = refl;
          }))
    ]

-- The key is read as a key of the agent, and is put together from what was read.
pub record ReadsAs (agent key : Text) : Type 0 where
  pub rest : Text
  pub read : parse_agent_session_key key ≡ some (record { agent_id = agent; rest = rest })
  pub joined : key ≡ agent_key agent rest

Keyed-ReadsAs : (agent key : Text) → IsId agent → Keyed agent key → ReadsAs agent key
Keyed-ReadsAs agent key h k = record {
  rest = k.rest;
  read = ap parse_agent_session_key k.split ∙ parse-agent_key agent k.rest h k.end;
  joined = k.split;
}

-- Whatever the peer, the scope, the channel and the links, the key that is built for an agent
-- whose normalised id was not cut off at 64 characters is read back as a key of that agent.
pub parse-build_agent_peer_session_key :
    (params : SessionKeyParams)
    → length (normalize_agent_id params.agent_id) < 64
    → ReadsAs (normalize_agent_id params.agent_id) (build_agent_peer_session_key params)
parse-build_agent_peer_session_key params short = read (peer_key-Keyed params)
  where
    read :
        KeyedTwice params.agent_id (build_agent_peer_session_key params)
        → ReadsAs (normalize_agent_id params.agent_id) (build_agent_peer_session_key params)
    read (inl k) = Keyed-ReadsAs _ _ (normalize-IsId params.agent_id).0 k
    read (inr k) = Keyed-ReadsAs _ _ (normalize-IsId params.agent_id).0 (
        subst (λ (a : Text). Keyed a (build_agent_peer_session_key params))
          (normalize_agent_id_idem params.agent_id short) k)
