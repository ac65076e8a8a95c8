-- ===== src/Bus/Dropped.antt =====
-- Close of pkg/bus/bus.go where no publisher and no consumer takes a step meanwhile: what becomes of
-- the buffered messages.
use mathlib.Core.List.{append_assoc, append-nil}
use nook_claw.Prelude.{ℕ, ◌+◌, subst, ◌≡◌, refl, sym, ◌∙◌, ap, true, List, [], ◌∷◌, ◌++◌, arith}
use nook_claw.Bus.{
  not_closed, draining_inbound, draining_outbound, draining_media, drained_all, MessageBus, close,
  BusStep, set_closed, close_done, drain_inbound, inbound_empty, drain_outbound, outbound_empty,
  drain_media, media_empty, Run, stay, step,
}
use nook_claw.Bus.Channel.{Removal, Topic, take_first, drain_all, drain}
use nook_claw.Bus.Delivery.{messages, delivered, messages-append}

module _ {A : Type 0} where
  delivered-dropped :
      (rs : List (Removal A)) (msg : A)
      → delivered (rs ++ (record { dropped = true; message = msg } ∷ [])) ≡ delivered rs
  delivered-dropped [] msg = refl
  delivered-dropped (r ∷ rs) msg = ground (arith, delivered-dropped rs msg)

  -- The buffer is empty, no consumer has received anything more, and all of it counts as removed.
  abbrev pub IsDropped : Topic A → Topic A → Type 0
  IsDropped t u =
      (u.buffer ≡ [])
      × (delivered u.removed ≡ delivered t.removed)
      × (messages u.removed ≡ messages t.removed ++ t.buffer)

  drain_all-IsDropped : (l : List A) (t : Topic A) → t.buffer ≡ l → IsDropped t (drain_all l t)
  unfolding drain_all
  drain_all-IsDropped [] t e =
      (e, refl, sym (append-nil (messages t.removed)) ∙ ap (λ s. messages t.removed ++ s) (sym e))
  drain_all-IsDropped (msg ∷ rest) t e =
      let (empty, same, all) = drain_all-IsDropped rest (take_first true msg rest t) refl in
      let r : Removal A = record { dropped = true; message = msg } in
      (
        empty,
        same ∙ delivered-dropped t.removed msg,
        all
            ∙ ap (λ s. s ++ rest) (messages-append t.removed r)
            ∙ append_assoc (messages t.removed) (msg ∷ []) rest
            ∙ ap (λ s. messages t.removed ++ s) (sym e),
      )

module _ {I O M : Type 0} where
  -- So many steps lead from one state to the other.
  abbrev pub Leads : MessageBus I O M → MessageBus I O M → Type 0
  Leads b c = (n : ℕ) × Run b n c

  then_take : (b : MessageBus I O M) {c d : MessageBus I O M} → Leads b c → BusStep c d → Leads b d
  then_take b (n, r) st = (n + 1, step r st)

  inbound-Leads :
      (b c : MessageBus I O M) (l : List I)
      → c.stage ≡ draining_inbound
      → c.inbound.buffer ≡ l
      → Leads b c
      → Leads b (record c { inbound = drain_all l c.inbound; stage = draining_outbound })
  unfolding drain_all
  inbound-Leads b c [] e f r = then_take b r (inbound_empty e f)
  inbound-Leads b c (msg ∷ rest) e f r =
      inbound-Leads b (record c { inbound = take_first true msg rest c.inbound }) rest e refl
        (then_take b r (drain_inbound msg rest e f))

  outbound-Leads :
      (b c : MessageBus I O M) (l : List O)
      → c.stage ≡ draining_outbound
      → c.outbound.buffer ≡ l
      → Leads b c
      → Leads b (record c { outbound = drain_all l c.outbound; stage = draining_media })
  unfolding drain_all
  outbound-Leads b c [] e f r = then_take b r (outbound_empty e f)
  outbound-Leads b c (msg ∷ rest) e f r =
      outbound-Leads b (record c { outbound = take_first true msg rest c.outbound }) rest e refl
        (then_take b r (drain_outbound msg rest e f))

  media-Leads :
      (b c : MessageBus I O M) (l : List M)
      → c.stage ≡ draining_media
      → c.outbound_media.buffer ≡ l
      → Leads b c
      → Leads b (record c { outbound_media = drain_all l c.outbound_media; stage = drained_all })
  unfolding drain_all
  media-Leads b c [] e f r = then_take b r (media_empty e f)
  media-Leads b c (msg ∷ rest) e f r =
      media-Leads b (record c { outbound_media = take_first true msg rest c.outbound_media }) rest e
        refl (then_take b r (drain_media msg rest e f))

  close_open :
      (b : MessageBus I O M)
      → b.stage ≡ not_closed
      → close b ≡ record {
        inbound = drain b.inbound;
        outbound = drain b.outbound;
        outbound_media = drain b.outbound_media;
        stage = drained_all;
      }
  unfolding close
  close_open b e = ground (arith, e)

  close-Leads : (b : MessageBus I O M) → b.stage ≡ not_closed → Leads b (close b)
  close-Leads b e =
      let closing : Leads b (record b { stage = draining_inbound }) =
        then_take b (then_take b (0, stay) (set_closed e)) (close_done refl) in
      let b1 : MessageBus I O M = record b {
        inbound = drain b.inbound;
        stage = draining_outbound;
      } in
      let b2 : MessageBus I O M = record b1 {
        outbound = drain b.outbound;
        stage = draining_media;
      } in
      subst (Leads b) (sym (close_open b e)) (
        media-Leads b b2 b.outbound_media.buffer refl refl (
          outbound-Leads b b1 b.outbound.buffer refl refl (
            inbound-Leads b (record b { stage = draining_inbound }) b.inbound.buffer refl refl
              closing)))

  close-IsDropped :
      (b : MessageBus I O M)
      → b.stage ≡ not_closed
      → IsDropped b.inbound (close b).inbound
        × IsDropped b.outbound (close b).outbound
        × IsDropped b.outbound_media (close b).outbound_media
        × (close (close b) ≡ close b)
  unfolding close
  close-IsDropped b e = rw e (
    drain_all-IsDropped b.inbound.buffer b.inbound refl,
    drain_all-IsDropped b.outbound.buffer b.outbound refl,
    drain_all-IsDropped b.outbound_media.buffer b.outbound_media refl,
    refl,
  )

  -- A Close of a bus that is not closed, during which no publisher and no consumer takes a step, is one
  -- of the runs of the bus. It throws away every message that is buffered on the three channels: at
  -- its end the buffers are empty, every message that was in them is removed, in order, and no consumer
  -- has received any of them. A second Close changes nothing.
  pub close_drops :
      (b : MessageBus I O M)
      → b.stage ≡ not_closed
      → Leads b (close b)
        × IsDropped b.inbound (close b).inbound
        × IsDropped b.outbound (close b).outbound
        × IsDropped b.outbound_media (close b).outbound_media
        × (close (close b) ≡ close b)
  close_drops b e =
      let (inbound, outbound, media, again) = close-IsDropped b e in
      (close-Leads b e, inbound, outbound, media, again)
