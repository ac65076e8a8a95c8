-- ===== src/Channels/Retry.antt =====
-- pkg/channels/manager.go and errutil.go: how the worker of a channel sends a message. What the
-- platform answers, and whether the context ends during a wait, are arguments. The clock is not
-- read: the waits are a list of milliseconds.
pub mod Ends
use nook_claw.Prelude.{
  ℕ, zero, suc, ◌+◌, ◌*◌, ◌^◌, min, Bool, true, false, not, ◌&&◌, Option, none, some, List, [], ◌∷◌,
  ◌++◌, ltb, leb, ◌==◌, length, if◌then◌else◌,
}
use nook_claw.Prelude.Text.{Text, is_empty}
use nook_claw.Prelude.Dict.{Dict, lookup, delete}
use nook_claw.Channels.Split.{split_message}

-- The sentinels of errors.go, and any other error.
pub data SendError : Type 0 where
  not_running rate_limit temporary send_failed other : SendError

-- `other` is the raw error, which is returned as it is.
abbrev pub classify_send_error : ℕ → SendError
classify_send_error status_code =
    if status_code == 429
    then rate_limit
    else if leb 500 status_code
    then temporary
    else if leb 400 status_code
    then send_failed
    else other

abbrev pub is_permanent : SendError → Bool
is_permanent not_running = true
is_permanent send_failed = true
is_permanent _ = false

abbrev pub max_retries : ℕ
max_retries = 3

abbrev pub retry_delay : SendError → ℕ → ℕ
retry_delay rate_limit attempt = 1000
retry_delay _ attempt = min (500 * 2 ^ attempt) 8000

-- What Send returns at each attempt, and whether the context ends in the wait after it.
pub record Platform : Type 0 where
  pub send : ℕ → Option SendError
  pub is_cancelled : ℕ → Bool

-- The attempt that went well, or the error of the last attempt and its number, or a context that has
-- ended.
pub data SendResult : Type 0 where
  sent : ℕ → SendResult
  gave_up : SendError → ℕ → SendResult
  cancelled : SendResult

abbrev pub waited : ℕ → SendResult × List ℕ → SendResult × List ℕ
waited delay r = (r.0, delay ∷ r.1)

-- The last attempt, and one after which others are left (`rest` is what they come to).
abbrev pub last_attempt : ℕ → Option SendError → SendResult × List ℕ
last_attempt attempt none = (sent attempt, [])
last_attempt attempt (some error) = (gave_up error attempt, [])

abbrev pub on_answer : Platform → ℕ → SendResult × List ℕ → Option SendError → SendResult × List ℕ
on_answer p attempt rest none = (sent attempt, [])
on_answer p attempt rest (some error) =
    if is_permanent error
    then (gave_up error attempt, [])
    else waited (retry_delay error attempt)
        (if p.is_cancelled attempt then (cancelled, []) else rest)

-- The loop of sendWithRetry from an attempt on, with the retries that are left.
unfoldable pub attempts : Platform → ℕ → ℕ → SendResult × List ℕ
attempts p attempt zero = last_attempt attempt (p.send attempt)
attempts p attempt (suc left) = on_answer p attempt (attempts p (suc attempt) left) (p.send attempt)

-- The maps from channel and chat to what preSend clears.
pub record Manager : Type 0 where
  pub typing_stops : Dict (Unit {0})
  pub reaction_undos : Dict (Unit {0})
  pub placeholders : Dict Text

abbrev pub cleared : Text → Manager → Manager
cleared key m = record {
  typing_stops = delete key m.typing_stops;
  reaction_undos = delete key m.reaction_undos;
  placeholders = delete key m.placeholders;
}

-- `edit`: the channel's EditMessage on the placeholder's id, whether it goes well; `none` where the
-- channel cannot edit.
abbrev pub is_edited : Option (Text → Bool) → Option Text → Bool
is_edited none o = false
is_edited (some edit) none = false
is_edited (some edit) (some id) = not (is_empty id) && edit id

unfoldable pub pre_send : Option (Text → Bool) → Text → Manager → Bool × Manager
pre_send edit key m = (is_edited edit (lookup key m.placeholders), cleared key m)

-- How a message ends: the limiter's wait fails, a placeholder is edited, or the attempts end.
pub data Delivery : Type 0 where
  not_admitted edited : Delivery
  tried : SendResult → List ℕ → Delivery

unfoldable pub send_with_retry :
    Bool → Option (Text → Bool) → Platform → Text → Manager → Delivery × Manager
unfolding pre_send attempts
send_with_retry admitted edit p key m =
    let (is_done, m') = pre_send edit key m in
    let (result, delays) = attempts p 0 max_retries in
    if admitted
    then if is_done then (edited, m') else (tried result delays, m')
    else (not_admitted, m)

-- The messages that runWorker makes of one in so many rounds of SplitMessage's loop, and the text that
-- the rounds have left; the loop goes on until none is left. `max_len` is 0 where the channel has no
-- limit.
unfoldable pub worker_messages : ℕ → ℕ → Text → List Text × Text
unfolding split_message
worker_messages rounds max_len content =
    if ltb 0 max_len && ltb max_len (length content)
    then split_message rounds content max_len
    else (content ∷ [], [])
