-- ===== src/Bus/Closing.antt =====
-- Close of pkg/bus/bus.go, beside publishers and consumers that are still at work, and alone.
use nook_claw.Prelude.{
  ℕ, ◌+◌, ◌*◌, ◌≤◌, ◌<◌, ◌≡◌, refl, ◌∙◌, ap, ◌⊎◌, inl, inr, Bool, true, List, [], ◌∷◌, ◌++◌, length,
  length-append, arith,
}
use nook_claw.Bus.{
  Stage, not_closed, closed_set, draining_inbound, draining_outbound, draining_media, drained_all,
  is_closed, is_done, MessageBus, BusStep, on_inbound, on_outbound, on_media, set_closed,
  close_done, drain_inbound, inbound_empty, drain_outbound, outbound_empty, drain_media,
  media_empty, Run, stay, step,
}
use nook_claw.Bus.Channel.{Topic, TopicStep, arrives, sends, refused, cancelled, receives}

-- A waiting publisher can take two steps that matter, a buffered message one.
abbrev pub weight : {A : Type 0} → Topic A → ℕ
weight t = 2 * length t.waiting + length t.buffer

abbrev pub stages_left : Stage → ℕ
stages_left not_closed = 5
stages_left closed_set = 4
stages_left draining_inbound = 3
stages_left draining_outbound = 2
stages_left draining_media = 1
stages_left drained_all = 0

abbrev pub steps_left : {I O M : Type 0} → MessageBus I O M → ℕ
steps_left b = weight b.inbound + weight b.outbound + weight b.outbound_media + stages_left b.stage

module _ {A : Type 0} where
  length-split :
      (xs before : List A) (msg : A) (after : List A)
      → xs ≡ before ++ (msg ∷ after)
      → length xs ≡ length (before ++ after) + 1
  length-split xs before msg after e =
      ap length e ∙ omega (arith, length-append before (msg ∷ after), length-append before after)

  weight-step :
      (closed done : Bool) {t u : Topic A}
      → closed ≡ true
      → TopicStep closed done t u
      → weight u < weight t
  weight-step closed done k (arrives msg e) = absurd (ground (arith, k, e))
  weight-step closed done {t} k (sends before msg after e room) =
      omega (arith, length-split t.waiting before msg after e, length-append t.buffer (msg ∷ []))
  weight-step closed done {t} k (refused before msg after e d) =
      omega (arith, length-split t.waiting before msg after e)
  weight-step closed done {t} k (cancelled before msg after e) =
      omega (arith, length-split t.waiting before msg after e)
  weight-step closed done {t} k (receives msg rest e) = omega (arith, ap length e)

module _ {I O M : Type 0} where
  steps_left-step :
      {b c : MessageBus I O M}
      → BusStep b c
      → is_closed b.stage ≡ true
      → (is_closed c.stage ≡ true) × (steps_left c < steps_left b)
  steps_left-step {b} (on_inbound st) h =
      (h, omega (arith, weight-step (is_closed b.stage) (is_done b.stage) h st))
  steps_left-step {b} (on_outbound st) h =
      (h, omega (arith, weight-step (is_closed b.stage) (is_done b.stage) h st))
  steps_left-step {b} (on_media st) h =
      (h, omega (arith, weight-step (is_closed b.stage) (is_done b.stage) h st))
  steps_left-step {b} (set_closed e) h = absurd (ground (arith, e, h))
  steps_left-step {b} (close_done e) h = (refl, omega (arith, ap stages_left e))
  steps_left-step {b} (drain_inbound msg rest e f) h = (h, omega (arith, ap length f))
  steps_left-step {b} (inbound_empty e f) h = (refl, omega (arith, ap stages_left e))
  steps_left-step {b} (drain_outbound msg rest e f) h = (h, omega (arith, ap length f))
  steps_left-step {b} (outbound_empty e f) h = (refl, omega (arith, ap stages_left e))
  steps_left-step {b} (drain_media msg rest e f) h = (h, omega (arith, ap length f))
  steps_left-step {b} (media_empty e f) h = (refl, omega (arith, ap stages_left e))

  run_bound :
      (b : MessageBus I O M) (n : ℕ) (c : MessageBus I O M)
      → is_closed b.stage ≡ true
      → Run b n c
      → (is_closed c.stage ≡ true) × (n + steps_left c ≤ steps_left b)
  run_bound b _ _ h stay = (h, omega arith)
  run_bound b _ d h (step {n} {c} r st) =
      let (closed, bound) = run_bound b n c h r in
      let (still, less) = steps_left-step st closed in (still, omega (arith, bound, less))

  abbrev pub CanStep : MessageBus I O M → Type 0
  CanStep b = (c : MessageBus I O M) × BusStep b c

  can_drain :
      (b : MessageBus I O M) (s : Stage)
      → b.stage ≡ s
      → (is_closed b.stage ≡ true)
      → (s ≡ drained_all) ⊎ CanStep b
  can_drain b not_closed e h = absurd (ground (arith, e, h))
  can_drain b closed_set e h = inr (_, close_done e)
  can_drain b draining_inbound e h = of_buffer b.inbound.buffer refl
    where
      of_buffer : (l : List I) → b.inbound.buffer ≡ l → (draining_inbound ≡ drained_all) ⊎ CanStep b
      of_buffer [] f = inr (_, inbound_empty e f)
      of_buffer (msg ∷ rest) f = inr (_, drain_inbound msg rest e f)
  can_drain b draining_outbound e h = of_buffer b.outbound.buffer refl
    where
      of_buffer :
          (l : List O) → b.outbound.buffer ≡ l → (draining_outbound ≡ drained_all) ⊎ CanStep b
      of_buffer [] f = inr (_, outbound_empty e f)
      of_buffer (msg ∷ rest) f = inr (_, drain_outbound msg rest e f)
  can_drain b draining_media e h = of_buffer b.outbound_media.buffer refl
    where
      of_buffer :
          (l : List M) → b.outbound_media.buffer ≡ l → (draining_media ≡ drained_all) ⊎ CanStep b
      of_buffer [] f = inr (_, media_empty e f)
      of_buffer (msg ∷ rest) f = inr (_, drain_media msg rest e f)
  can_drain b drained_all e h = inl refl

  -- Once Close has set its flag it comes to its end, whatever publishers and consumers do meanwhile:
  -- each further step, of whomever, brings the count of `steps_left` down, which counts two for a
  -- waiting publisher, one for a buffered message and one for each part of Close; and until Close
  -- is at its end there is a step that can be taken.
  pub close_ends :
      (n : ℕ) (b c : MessageBus I O M)
      → is_closed b.stage ≡ true
      → Run b n c
      → (n + steps_left c ≤ steps_left b) × ((c.stage ≡ drained_all) ⊎ CanStep c)
  close_ends n b c h r =
      let (closed, bound) = run_bound b n c h r in (bound, can_drain c c.stage refl closed)
