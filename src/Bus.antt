-- ===== src/Bus.antt =====
-- pkg/bus/bus.go: the message bus between the chat platforms and the agent loop, three buffered
-- channels and a flag. Publishers, consumers and Close run at the same time, so the bus is a state and
-- a relation of the steps that any of them may take next.
pub mod Channel
pub mod Closing
pub mod Delivery
pub mod Drained
pub mod Dropped
use nook_claw.Prelude.{
  ℕ, ◌+◌, ◌≡◌, Bool, true, false, Option, none, some, List, [], ◌∷◌, ltb, length, if◌then◌else◌,
}
use nook_claw.Bus.Channel.{Topic, new_topic, take_first, drain, TopicStep}

-- How far Close has come: it has not been called, it has set `closed`, it has closed `done` and
-- drains the channels one after the other, or it is at its end.
pub data Stage : Type 0 where
  not_closed closed_set draining_inbound draining_outbound draining_media drained_all : Stage

abbrev pub is_closed : Stage → Bool
is_closed not_closed = false
is_closed _ = true

-- The channel `done` is closed.
abbrev pub is_done : Stage → Bool
is_done not_closed = false
is_done closed_set = false
is_done _ = true

pub record MessageBus (I O M : Type 0) : Type 0 where
  pub inbound : Topic I
  pub outbound : Topic O
  pub outbound_media : Topic M
  pub stage : Stage

module _ {I O M : Type 0} where
  abbrev pub new_message_bus : MessageBus I O M
  new_message_bus = record {
    inbound = new_topic;
    outbound = new_topic;
    outbound_media = new_topic;
    stage = not_closed;
  }

  -- Close from its start to its end where no publisher and no consumer takes a step meanwhile: one of
  -- its runs. What may happen during the others is in the steps below.
  unfoldable pub close : MessageBus I O M → MessageBus I O M
  close b = if is_closed b.stage then b else record {
    inbound = drain b.inbound;
    outbound = drain b.outbound;
    outbound_media = drain b.outbound_media;
    stage = drained_all;
  }

  -- The steps of Close are named after what they do: the compare-and-swap, the close of `done`, and
  -- for each channel the receive of a message or the default case, which ends its loop.
  pub data BusStep (b : MessageBus I O M) : MessageBus I O M → Type 0 where
    on_inbound :
        {t : Topic I}
        → TopicStep (is_closed b.stage) (is_done b.stage) b.inbound t
        → BusStep b (record b { inbound = t })
    on_outbound :
        {t : Topic O}
        → TopicStep (is_closed b.stage) (is_done b.stage) b.outbound t
        → BusStep b (record b { outbound = t })
    on_media :
        {t : Topic M}
        → TopicStep (is_closed b.stage) (is_done b.stage) b.outbound_media t
        → BusStep b (record b { outbound_media = t })
    set_closed : b.stage ≡ not_closed → BusStep b (record b { stage = closed_set })
    close_done : b.stage ≡ closed_set → BusStep b (record b { stage = draining_inbound })
    drain_inbound :
        (msg : I) (rest : List I)
        → b.stage ≡ draining_inbound
        → b.inbound.buffer ≡ msg ∷ rest
        → BusStep b (record b { inbound = take_first true msg rest b.inbound })
    inbound_empty :
        b.stage ≡ draining_inbound
        → b.inbound.buffer ≡ []
        → BusStep b (record b { stage = draining_outbound })
    drain_outbound :
        (msg : O) (rest : List O)
        → b.stage ≡ draining_outbound
        → b.outbound.buffer ≡ msg ∷ rest
        → BusStep b (record b { outbound = take_first true msg rest b.outbound })
    outbound_empty :
        b.stage ≡ draining_outbound
        → b.outbound.buffer ≡ []
        → BusStep b (record b { stage = draining_media })
    drain_media :
        (msg : M) (rest : List M)
        → b.stage ≡ draining_media
        → b.outbound_media.buffer ≡ msg ∷ rest
        → BusStep b (record b { outbound_media = take_first true msg rest b.outbound_media })
    media_empty :
        b.stage ≡ draining_media
        → b.outbound_media.buffer ≡ []
        → BusStep b (record b { stage = drained_all })

  -- The states after a number of steps.
  pub data Run (b : MessageBus I O M) : ℕ → MessageBus I O M → Type 0 where
    stay : Run b 0 b
    step : {n : ℕ} {c d : MessageBus I O M} → Run b n c → BusStep c d → Run b (n + 1) d
