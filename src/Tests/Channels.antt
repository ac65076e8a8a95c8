-- ===== src/Tests/Channels.antt =====
-- The cutting of pkg/channels/split.go on small texts, and the sending of pkg/channels/manager.go.
use nook_claw.Prelude.{
  ◌≤◌, ◌<◌, ◌≡◌, refl, true, false, none, some, if◌then◌else◌, ◌==◌, [], ◌∷◌, ◌++◌, All, length,
  arith,
}
use nook_claw.Prelude.Text.{Text, codes, trim_space, trim_left, trim_right, is_space}
use nook_claw.Channels.Split.{
  skip_blank, trim_right_blank, find_last, last_unclosed, next_closing, next_newline, natural_end,
  split_block, split_step, split_rounds, split_message,
}
use nook_claw.Channels.Split.Bound.{split_message-bound}
use nook_claw.Channels.Split.Lines.{has_short_lines}
use nook_claw.Channels.Split.Progress.{split_message-ends}
use nook_claw.Channels.Split.Plain.{is_tick, none_of}
use nook_claw.Channels.Split.Runaway.{fenced}
use nook_claw.Channels.Split.Endless.{split_message-endless}
use nook_claw.Channels.Split.Intact.{ink, joined, has_no_fence, split_message-keeps}
use nook_claw.Channels.Retry.{Platform, rate_limit, max_retries, attempts, sent, worker_messages}
use nook_claw.Channels.Retry.Ends.{Describes, total, attempts-Ends, worker_messages-bound}

abbrev greeting : Text
greeting = codes "hello wonderful world"

greeting_cut :
    (split_message 9 greeting 12).0 ≡ codes "hello" ∷ codes "wonder" ∷ codes "ful world" ∷ []
unfolding split_message split_rounds split_step natural_end find_last last_unclosed skip_blank
greeting_cut = refl

-- A block that does not fit is closed and opened again.
abbrev listing : Text
listing = codes "```go\nx := 1\ny := 2\nz := 3\nprint(x)\nprint(y)\nreturn\n```"

listing_cut : (split_message 9 listing 60).0 ≡ listing ∷ []
unfolding split_message split_rounds split_step natural_end find_last last_unclosed skip_blank
listing_cut = refl

listing_reopened : split_message 1 listing 54 ≡ (
  codes "```go\nx := 1\ny := 2\nz := 3\nprint(x)\nprint(y)\n```" ∷ [],
  codes "```go\n\nreturn\n```",
)
unfolding split_message split_rounds split_step natural_end find_last last_unclosed skip_blank
    split_block next_closing next_newline trim_space trim_left trim_right is_space trim_right_blank
listing_reopened = refl

split_message-bound_example : All (λ chunk. length chunk ≤ 12) (split_message 4 greeting 12).0
split_message-bound_example = split_message-bound 4 12 greeting (omega arith)

listing_is_short : has_short_lines 46 0 listing ≡ true
unfolding has_short_lines
listing_is_short = refl

split_message-ends_example : (split_message 99 listing 52).1 ≡ []
split_message-ends_example =
    split_message-ends 99 52 listing (omega arith) listing_is_short (omega arith)

abbrev long_line : Text
long_line = codes "{name:value,list:[1,2,3]}"

long_line_is_solid : none_of is_space long_line ≡ true
unfolding none_of is_space
long_line_is_solid = refl

long_line_has_no_tick : none_of is_tick long_line ≡ true
unfolding none_of
long_line_has_no_tick = refl

split_message-endless_example :
    let (chunks, left) = split_message 1000 (fenced long_line ++ (b'\n' ∷ codes "```")) 20 in
    (length chunks ≡ 1000) × (20 < length left)
split_message-endless_example =
    split_message-endless 1000 20 long_line (codes "```") (omega arith) (omega arith)
      long_line_is_solid long_line_has_no_tick

greeting-has_no_fence : has_no_fence greeting ≡ true
unfolding has_no_fence
greeting-has_no_fence = refl

split_message-keeps_example :
    let (chunks, left) = split_message 30 greeting 12 in
    (left ≡ []) × (ink (joined chunks) ≡ ink greeting)
split_message-keeps_example =
    split_message-keeps 30 12 greeting (omega arith) greeting-has_no_fence (omega arith)

-- A platform that limits the rate once and then takes the message.
abbrev busy : Platform
busy = record { send = λ i. if i == 0 then some rate_limit else none; is_cancelled = λ i. false }

attempts-Ends_example :
    let (result, delays) = attempts busy 0 max_retries in
    Describes busy 0 3 result × (total delays ≤ 4000)
attempts-Ends_example = attempts-Ends busy

busy_is_served : attempts busy 0 max_retries ≡ (sent 1, 1000 ∷ [])
unfolding attempts
busy_is_served = refl

worker_messages-bound_example :
    All (λ m. length m ≤ 12) (worker_messages 3 12 greeting).0
    × (length greeting ≤ 12 → worker_messages 3 12 greeting ≡ (greeting ∷ [], []))
worker_messages-bound_example = worker_messages-bound 3 12 greeting (omega arith)
