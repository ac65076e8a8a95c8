-- ===== src/Bus/Channel.antt =====
-- One channel of pkg/bus/bus.go, with the publishers that wait to send on it. What has been sent and
-- what has been received, by a consumer or by Close, is kept beside it, for the record only: the code
-- has neither list.
use nook_claw.Prelude.{ℕ, ◌<◌, ◌≡◌, Bool, true, false, List, [], ◌∷◌, ◌++◌, length}

abbrev pub default_bus_buffer_size : ℕ
default_bus_buffer_size = 64

-- A message that has left the buffer; `dropped` if Close has received it, which throws it away.
pub record Removal (A : Type 0) : Type 0 where
  pub dropped : Bool
  pub message : A

-- `waiting`: the messages of the publishers that are past the tests of `closed` and of the context
-- and stand at the select.
pub record Topic (A : Type 0) : Type 0 where
  pub buffer : List A
  pub waiting : List A
  pub sent : List A
  pub removed : List (Removal A)

module _ {A : Type 0} where
  abbrev pub new_topic : Topic A
  new_topic = record { buffer = []; waiting = []; sent = []; removed = [] }

  abbrev pub take_first : Bool → A → List A → Topic A → Topic A
  take_first dropped msg rest t = record t {
    buffer = rest;
    removed = t.removed ++ (record { dropped = dropped; message = msg } ∷ []);
  }

  -- The drain loop of Close for one channel.
  unfoldable pub drain_all : List A → Topic A → Topic A
  drain_all [] t = t
  drain_all (msg ∷ rest) t = drain_all rest (take_first true msg rest t)

  abbrev pub drain : Topic A → Topic A
  drain t = drain_all t.buffer t

  -- Publish in its parts, and Consume: a publisher passes the tests; the select sends its message, or
  -- returns because `done` is closed or the context has ended; a consumer receives a message. (A
  -- consumer whose select takes another case changes nothing.)
  pub data TopicStep (closed done : Bool) (t : Topic A) : Topic A → Type 0 where
    arrives :
        (msg : A)
        → closed ≡ false
        → TopicStep closed done t (record t { waiting = t.waiting ++ (msg ∷ []) })
    sends :
        (before : List A) (msg : A) (after : List A)
        → t.waiting ≡ before ++ (msg ∷ after)
        → length t.buffer < default_bus_buffer_size
        → TopicStep closed done t (record t {
          buffer = t.buffer ++ (msg ∷ []);
          waiting = before ++ after;
          sent = t.sent ++ (msg ∷ []);
        })
    refused :
        (before : List A) (msg : A) (after : List A)
        → t.waiting ≡ before ++ (msg ∷ after)
        → done ≡ true
        → TopicStep closed done t (record t { waiting = before ++ after })
    cancelled :
        (before : List A) (msg : A) (after : List A)
        → t.waiting ≡ before ++ (msg ∷ after)
        → TopicStep closed done t (record t { waiting = before ++ after })
    receives :
        (msg : A) (rest : List A)
        → t.buffer ≡ msg ∷ rest
        → TopicStep closed done t (take_first false msg rest t)
