-- ===== src/Tests/Bus.antt =====
-- The bus of pkg/bus/bus.go with one message on its first channel.
use nook_claw.Prelude.{ℕ, ◌+◌, ◌≤◌, ◌≡◌, ◌⊎◌, refl, false, [], ◌∷◌, arith}
use nook_claw.Bus.{
  closed_set, drained_all, MessageBus, new_message_bus, close, BusStep, on_inbound, set_closed,
  close_done, inbound_empty, outbound_empty, media_empty, Run, stay, step,
}
use nook_claw.Bus.Channel.{new_topic, take_first, arrives, sends, receives}
use nook_claw.Bus.Delivery.{AreInOrder, Run-AreInOrder}
use nook_claw.Bus.Closing.{steps_left, CanStep, close_ends}
use nook_claw.Bus.Drained.{IsGone, drained-IsGone}
use nook_claw.Bus.Dropped.{Leads, IsDropped, close_drops}

abbrev Numbers : Type 0
Numbers = MessageBus ℕ ℕ ℕ

abbrev empty_bus : Numbers
empty_bus = new_message_bus

abbrev waiting_seven : Numbers
waiting_seven = record empty_bus { inbound = record new_topic { waiting = 7 ∷ [] } }

abbrev sent_seven : Numbers
sent_seven = record empty_bus {
  inbound = record { buffer = 7 ∷ []; waiting = []; sent = 7 ∷ []; removed = [] };
}

abbrev closing : Numbers
closing = record waiting_seven { stage = closed_set }

seven_arrives : BusStep empty_bus waiting_seven
seven_arrives = on_inbound (arrives 7 refl)

seven_is_sent : BusStep waiting_seven sent_seven
seven_is_sent = on_inbound (sends [] 7 [] refl (omega arith))

published : Run empty_bus 2 sent_seven
published = step (step stay seven_arrives) seven_is_sent

Run-AreInOrder_example : AreInOrder sent_seven
Run-AreInOrder_example = Run-AreInOrder 2 sent_seven published

-- The publisher was past its tests when Close began, and its message is accepted after that.
closed_meanwhile : Run closing 1 (record sent_seven { stage = closed_set })
closed_meanwhile = step stay (on_inbound (sends [] 7 [] refl (omega arith)))

close_ends_example :
    (1 + steps_left (record sent_seven { stage = closed_set }) ≤ steps_left closing)
    × ((closed_set ≡ drained_all) ⊎ CanStep (record sent_seven { stage = closed_set }))
close_ends_example =
    close_ends 1 closing (record sent_seven { stage = closed_set }) refl closed_meanwhile

close_drops_example :
    Leads sent_seven (close sent_seven)
    × IsDropped sent_seven.inbound (close sent_seven).inbound
    × IsDropped sent_seven.outbound (close sent_seven).outbound
    × IsDropped sent_seven.outbound_media (close sent_seven).outbound_media
    × (close (close sent_seven) ≡ close sent_seven)
close_drops_example = close_drops sent_seven refl

-- While Close is about to drain the first channel, a consumer receives the message.
abbrev seven_received : Numbers
seven_received = record empty_bus {
  inbound = take_first false 7 [] sent_seven.inbound;
  stage = drained_all;
}

received_meanwhile : Run sent_seven 6 seven_received
received_meanwhile =
    step
      (step
        (step
          (step (step (step stay (set_closed refl)) (close_done refl))
            (on_inbound (receives 7 [] refl)))
          (inbound_empty refl refl))
        (outbound_empty refl refl))
      (media_empty refl refl)

drained-IsGone_example :
    IsGone sent_seven.inbound seven_received.inbound
    × IsGone sent_seven.outbound seven_received.outbound
    × IsGone sent_seven.outbound_media seven_received.outbound_media
drained-IsGone_example = drained-IsGone sent_seven 6 seven_received refl received_meanwhile refl
