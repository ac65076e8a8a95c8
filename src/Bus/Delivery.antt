-- ===== src/Bus/Delivery.antt =====
-- What becomes of the messages that pkg/bus/bus.go has accepted.
use mathlib.Core.List.{append_assoc}
use nook_claw.Prelude.{
  ℕ, ◌≤◌, ◌≡◌, refl, sym, ◌∙◌, ap, Bool, true, false, List, [], ◌∷◌, ◌++◌, length, length-append,
  arith, if◌then◌else◌,
}
use nook_claw.Bus.{
  Stage, not_closed, closed_set, draining_inbound, draining_outbound, draining_media, drained_all,
  is_closed, is_done, MessageBus, new_message_bus, BusStep, on_inbound, on_outbound, on_media,
  set_closed, close_done, drain_inbound, inbound_empty, drain_outbound, outbound_empty, drain_media,
  media_empty, Run, stay, step,
}
use nook_claw.Bus.Channel.{
  default_bus_buffer_size, Removal, Topic, new_topic, take_first, TopicStep, arrives, sends,
  refused, cancelled, receives,
}

module _ {A : Type 0} where
  abbrev pub messages : List (Removal A) → List A
  messages [] = []
  messages (r ∷ rs) = r.message ∷ messages rs

  -- Those that a consumer has received.
  abbrev pub delivered : List (Removal A) → List A
  delivered [] = []
  delivered (r ∷ rs) = if r.dropped then delivered rs else r.message ∷ delivered rs

  abbrev pub has_drops : List (Removal A) → Bool
  has_drops [] = false
  has_drops (r ∷ rs) = if r.dropped then true else has_drops rs

  pub messages-append :
      (rs : List (Removal A)) (r : Removal A)
      → messages (rs ++ (r ∷ [])) ≡ messages rs ++ (r.message ∷ [])
  messages-append [] r = refl
  messages-append (q ∷ qs) r = ap (◌∷◌ q.message) (messages-append qs r)

  drops-append :
      (rs : List (Removal A)) (msg : A)
      → has_drops rs ≡ false
      → has_drops (rs ++ (record { dropped = false; message = msg } ∷ [])) ≡ false
  drops-append [] msg h = refl
  drops-append (q ∷ qs) msg h = ground (arith, drops-append qs msg)

  all-delivered : (rs : List (Removal A)) → has_drops rs ≡ false → delivered rs ≡ messages rs
  all-delivered [] h = refl
  all-delivered (r ∷ rs) h = ground (arith, all-delivered rs)

  -- What has been received and what is buffered are what has been sent, in its order, and before
  -- `done` is closed nothing has been thrown away.
  pub record IsInOrder (done : Bool) (t : Topic A) : Type 0 where
    pub in_order : messages t.removed ++ t.buffer ≡ t.sent
    pub no_drops : done ≡ false → has_drops t.removed ≡ false
    pub within : length t.buffer ≤ default_bus_buffer_size

  new_topic-IsInOrder : (done : Bool) → IsInOrder done new_topic
  new_topic-IsInOrder done = record { in_order = refl; no_drops = λ h. refl; within = omega arith }

  take_first-IsInOrder :
      (done dropped : Bool) (msg : A) (rest : List A) (t : Topic A)
      → t.buffer ≡ msg ∷ rest
      → (dropped ≡ true → done ≡ true)
      → IsInOrder done t
      → IsInOrder done (take_first dropped msg rest t)
  take_first-IsInOrder done dropped msg rest t e d h = record {
    in_order =
        ap (λ s. s ++ rest)
          (messages-append t.removed (record { dropped = dropped; message = msg }))
        ∙ append_assoc (messages t.removed) (msg ∷ []) rest
        ∙ ap (λ s. messages t.removed ++ s) (sym e)
        ∙ h.in_order;
    no_drops = λ k.
        let f : dropped ≡ false = ground (arith, d, k) in
        rw f (drops-append t.removed msg (h.no_drops k));
    within = omega (arith, h.within, ap length e);
  }

  TopicStep-IsInOrder :
      (closed done : Bool) {t u : Topic A}
      → TopicStep closed done t u
      → IsInOrder done t
      → IsInOrder done u
  TopicStep-IsInOrder closed done {t} (arrives msg e) h = record {
    in_order = h.in_order;
    no_drops = h.no_drops;
    within = h.within;
  }
  TopicStep-IsInOrder closed done {t} (sends before msg after e room) h = record {
    in_order =
        sym (append_assoc (messages t.removed) t.buffer (msg ∷ []))
        ∙ ap (λ s. s ++ (msg ∷ [])) h.in_order;
    no_drops = h.no_drops;
    within = omega (arith, length-append t.buffer (msg ∷ []));
  }
  TopicStep-IsInOrder closed done {t} (refused before msg after e d) h = record {
    in_order = h.in_order;
    no_drops = h.no_drops;
    within = h.within;
  }
  TopicStep-IsInOrder closed done {t} (cancelled before msg after e) h = record {
    in_order = h.in_order;
    no_drops = h.no_drops;
    within = h.within;
  }
  TopicStep-IsInOrder closed done {t} (receives msg rest e) h =
      take_first-IsInOrder done false msg rest t e (λ k. absurd (ground arith)) h

  restaged :
      (s s' : Stage) (t : Topic A)
      → (is_done s' ≡ false → is_done s ≡ false)
      → IsInOrder (is_done s) t
      → IsInOrder (is_done s') t
  restaged s s' t k h = record {
    in_order = h.in_order;
    no_drops = λ d. h.no_drops (k d);
    within = h.within;
  }

module _ {I O M : Type 0} where
  abbrev pub AreInOrder : MessageBus I O M → Type 0
  AreInOrder b =
      IsInOrder (is_done b.stage) b.inbound
      × IsInOrder (is_done b.stage) b.outbound
      × IsInOrder (is_done b.stage) b.outbound_media

  all_restaged :
      (b : MessageBus I O M) (s s' : Stage)
      → b.stage ≡ s
      → (is_done s' ≡ false → is_done s ≡ false)
      → AreInOrder b
      → AreInOrder (record b { stage = s' })
  all_restaged b s s' e k h =
      let back : is_done s' ≡ false → is_done b.stage ≡ false = λ d. ap is_done e ∙ k d in
      (
        restaged b.stage s' b.inbound back h.0,
        restaged b.stage s' b.outbound back h.1,
        restaged b.stage s' b.outbound_media back h.2,
      )

  BusStep-AreInOrder : {b c : MessageBus I O M} → BusStep b c → AreInOrder b → AreInOrder c
  BusStep-AreInOrder {b} (on_inbound st) h =
      (TopicStep-IsInOrder (is_closed b.stage) (is_done b.stage) st h.0, h.1, h.2)
  BusStep-AreInOrder {b} (on_outbound st) h =
      (h.0, TopicStep-IsInOrder (is_closed b.stage) (is_done b.stage) st h.1, h.2)
  BusStep-AreInOrder {b} (on_media st) h =
      (h.0, h.1, TopicStep-IsInOrder (is_closed b.stage) (is_done b.stage) st h.2)
  BusStep-AreInOrder {b} (set_closed e) h = all_restaged b not_closed closed_set e (λ d. refl) h
  BusStep-AreInOrder {b} (close_done e) h =
      all_restaged b closed_set draining_inbound e (λ d. absurd (ground arith)) h
  BusStep-AreInOrder {b} (drain_inbound msg rest e f) h = (
    take_first-IsInOrder (is_done b.stage) true msg rest b.inbound f (λ k. ap is_done e) h.0,
    h.1,
    h.2,
  )
  BusStep-AreInOrder {b} (inbound_empty e f) h =
      all_restaged b draining_inbound draining_outbound e (λ d. absurd (ground arith)) h
  BusStep-AreInOrder {b} (drain_outbound msg rest e f) h = (
    h.0,
    take_first-IsInOrder (is_done b.stage) true msg rest b.outbound f (λ k. ap is_done e) h.1,
    h.2,
  )
  BusStep-AreInOrder {b} (outbound_empty e f) h =
      all_restaged b draining_outbound draining_media e (λ d. absurd (ground arith)) h
  BusStep-AreInOrder {b} (drain_media msg rest e f) h = (
    h.0,
    h.1,
    take_first-IsInOrder (is_done b.stage) true msg rest b.outbound_media f (λ k. ap is_done e) h.2,
  )
  BusStep-AreInOrder {b} (media_empty e f) h =
      all_restaged b draining_media drained_all e (λ d. absurd (ground arith)) h

  -- However publishers, consumers and Close interleave, and however long the bus has run: on each of
  -- its channels the messages that have been received and those that are buffered are, in this
  -- order, the messages that have been sent, each once; no more than 64 are buffered; and before
  -- `done` is closed every message that has left the buffer has gone to a consumer.
  pub Run-AreInOrder : (n : ℕ) (b : MessageBus I O M) → Run new_message_bus n b → AreInOrder b
  Run-AreInOrder _ _ stay =
      (new_topic-IsInOrder false, new_topic-IsInOrder false, new_topic-IsInOrder false)
  Run-AreInOrder _ b (step {n} {c} r st) = BusStep-AreInOrder st (Run-AreInOrder n c r)
