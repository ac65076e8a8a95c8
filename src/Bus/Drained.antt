-- ===== src/Bus/Drained.antt =====
-- Close of pkg/bus/bus.go while publishers and consumers go on: what becomes of the buffered messages.
use mathlib.Core.List.{append_assoc, append-nil}
use nook_claw.Prelude.{ℕ, ◌≡◌, sym, ◌∙◌, ap, subst, Bool, true, false, List, [], ◌∷◌, ◌++◌}
use nook_claw.Bus.{
  Stage, not_closed, closed_set, draining_inbound, draining_outbound, draining_media, drained_all,
  MessageBus, BusStep, on_inbound, on_outbound, on_media, set_closed, close_done, drain_inbound,
  inbound_empty, drain_outbound, outbound_empty, drain_media, media_empty, Run, stay, step,
}
use nook_claw.Bus.Channel.{
  Topic, take_first, TopicStep, arrives, sends, refused, cancelled, receives,
}
use nook_claw.Bus.Delivery.{messages, messages-append}

module _ {A : Type 0} where
  -- All that was ever put into the channel.
  abbrev all : Topic A → List A
  all t = messages t.removed ++ t.buffer

  abbrev Extends : List A → List A → Type 0
  Extends l k = (more : List A) × (k ≡ l ++ more)

  Extends-trans : (l k j : List A) → Extends l k → Extends k j → Extends l j
  Extends-trans l k j (m, e) (n, f) =
      (m ++ n, f ∙ ap (λ (x : List A). x ++ n) e ∙ append_assoc l m n)

  Extends-same : (l : List A) → Extends l l
  Extends-same l = ([], sym (append-nil l))

  -- Every message that was in the buffer is removed, in order: a consumer has received it or Close
  -- has thrown it away.
  abbrev pub IsGone : Topic A → Topic A → Type 0
  IsGone t u = (more : List A) × (messages u.removed ≡ (messages t.removed ++ t.buffer) ++ more)

  -- Whether the drain of this channel is over: then the messages are gone.
  abbrev At : Bool → Topic A → Topic A → Type 0
  At true t u = IsGone t u
  At false t u = Extends (all t) (all u)

  -- Nothing that was removed or buffered is forgotten.
  abbrev Keeps : Topic A → Topic A → Type 0
  Keeps u v = Extends (messages u.removed) (messages v.removed) × Extends (all u) (all v)

  At-Keeps : (gone : Bool) (t u v : Topic A) → Keeps u v → At gone t u → At gone t v
  At-Keeps true t u v k h = Extends-trans (all t) (messages u.removed) (messages v.removed) h k.0
  At-Keeps false t u v k h = Extends-trans (all t) (all u) (all v) h k.1

  At-empty : (t u : Topic A) → u.buffer ≡ [] → At false t u → At true t u
  At-empty t u e (more, f) = (
    more,
    sym (append-nil (messages u.removed))
        ∙ ap (λ (x : List A). messages u.removed ++ x) (sym e)
        ∙ f,
  )

  take_first-Keeps :
      (dropped : Bool) (msg : A) (rest : List A) (t : Topic A)
      → t.buffer ≡ msg ∷ rest
      → Keeps t (take_first dropped msg rest t)
  take_first-Keeps dropped msg rest t e =
      let taken = messages-append t.removed (record { dropped = dropped; message = msg }) in
      (
        (msg ∷ [], taken),
        (
          [],
          ap (λ (x : List A). x ++ rest) taken
              ∙ append_assoc (messages t.removed) (msg ∷ []) rest
              ∙ ap (λ (x : List A). messages t.removed ++ x) (sym e)
              ∙ sym (append-nil (all t)),
        ),
      )

  TopicStep-Keeps : {closed done : Bool} {t u : Topic A} → TopicStep closed done t u → Keeps t u
  TopicStep-Keeps {t = t} (arrives msg e) =
      (Extends-same (messages t.removed), Extends-same (all t))
  TopicStep-Keeps {t = t} (sends before msg after e room) = (
    Extends-same (messages t.removed),
    (msg ∷ [], sym (append_assoc (messages t.removed) t.buffer (msg ∷ []))),
  )
  TopicStep-Keeps {t = t} (refused before msg after e d) =
      (Extends-same (messages t.removed), Extends-same (all t))
  TopicStep-Keeps {t = t} (cancelled before msg after e) =
      (Extends-same (messages t.removed), Extends-same (all t))
  TopicStep-Keeps {t = t} (receives msg rest e) = take_first-Keeps false msg rest t e

-- The drains of the three channels that are over.
abbrev inbound_over : Stage → Bool
inbound_over draining_outbound = true
inbound_over draining_media = true
inbound_over drained_all = true
inbound_over _ = false

abbrev outbound_over : Stage → Bool
outbound_over draining_media = true
outbound_over drained_all = true
outbound_over _ = false

abbrev media_over : Stage → Bool
media_over drained_all = true
media_over _ = false

module _ {I O M : Type 0} (b : MessageBus I O M) where
  abbrev Follows : Stage → MessageBus I O M → Type 0
  Follows s c =
      At (inbound_over s) b.inbound c.inbound
      × At (outbound_over s) b.outbound c.outbound
      × At (media_over s) b.outbound_media c.outbound_media

  Follows-at : (c : MessageBus I O M) (s : Stage) → c.stage ≡ s → Follows c.stage c → Follows s c
  Follows-at c s e h = subst (λ (s : Stage). Follows s c) e h

  on_inbound-Follows :
      (s : Stage) (c : MessageBus I O M) (t : Topic I)
      → Keeps c.inbound t
      → Follows s c
      → Follows s (record c { inbound = t })
  on_inbound-Follows s c t k (i, o, m) = (At-Keeps (inbound_over s) b.inbound c.inbound t k i, o, m)

  on_outbound-Follows :
      (s : Stage) (c : MessageBus I O M) (t : Topic O)
      → Keeps c.outbound t
      → Follows s c
      → Follows s (record c { outbound = t })
  on_outbound-Follows s c t k (i, o, m) =
      (i, At-Keeps (outbound_over s) b.outbound c.outbound t k o, m)

  on_media-Follows :
      (s : Stage) (c : MessageBus I O M) (t : Topic M)
      → Keeps c.outbound_media t
      → Follows s c
      → Follows s (record c { outbound_media = t })
  on_media-Follows s c t k (i, o, m) =
      (i, o, At-Keeps (media_over s) b.outbound_media c.outbound_media t k m)

  BusStep-Follows : {c d : MessageBus I O M} → BusStep c d → Follows c.stage c → Follows d.stage d
  BusStep-Follows {c} (on_inbound {t} st) h = on_inbound-Follows c.stage c t (TopicStep-Keeps st) h
  BusStep-Follows {c} (on_outbound {t} st) h =
      on_outbound-Follows c.stage c t (TopicStep-Keeps st) h
  BusStep-Follows {c} (on_media {t} st) h = on_media-Follows c.stage c t (TopicStep-Keeps st) h
  BusStep-Follows {c} (set_closed e) h = Follows-at c not_closed e h
  BusStep-Follows {c} (close_done e) h = Follows-at c closed_set e h
  BusStep-Follows {c} (drain_inbound msg rest e f) h =
      on_inbound-Follows c.stage c _ (take_first-Keeps true msg rest c.inbound f) h
  BusStep-Follows {c} (inbound_empty e f) h =
      let (i, o, m) = Follows-at c draining_inbound e h in (At-empty b.inbound c.inbound f i, o, m)
  BusStep-Follows {c} (drain_outbound msg rest e f) h =
      on_outbound-Follows c.stage c _ (take_first-Keeps true msg rest c.outbound f) h
  BusStep-Follows {c} (outbound_empty e f) h =
      let (i, o, m) = Follows-at c draining_outbound e h in
      (i, At-empty b.outbound c.outbound f o, m)
  BusStep-Follows {c} (drain_media msg rest e f) h =
      on_media-Follows c.stage c _ (take_first-Keeps true msg rest c.outbound_media f) h
  BusStep-Follows {c} (media_empty e f) h =
      let (i, o, m) = Follows-at c draining_media e h in
      (i, o, At-empty b.outbound_media c.outbound_media f m)

  Run-Follows : (n : ℕ) (c : MessageBus I O M) → Follows b.stage b → Run b n c → Follows c.stage c
  Run-Follows _ _ h stay = h
  Run-Follows _ d h (step {n} {c} r st) = BusStep-Follows st (Run-Follows n c h r)

  -- From any state before Close and with any steps of publishers and consumers before and during it:
  -- when Close is at its end, every message that was buffered on one of the three channels has left
  -- it, in order and behind those that had left before, received by a consumer or thrown away by
  -- Close.
  pub drained-IsGone :
      (n : ℕ) (c : MessageBus I O M)
      → b.stage ≡ not_closed
      → Run b n c
      → c.stage ≡ drained_all
      → IsGone b.inbound c.inbound
        × IsGone b.outbound c.outbound
        × IsGone b.outbound_media c.outbound_media
  drained-IsGone n c e r over =
      let start : Follows not_closed b = (
        Extends-same (all b.inbound),
        Extends-same (all b.outbound),
        Extends-same (all b.outbound_media),
      ) in
      Follows-at c drained_all over
        (Run-Follows n c (subst (λ (s : Stage). Follows s b) (sym e) start) r)
