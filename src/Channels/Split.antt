-- ===== src/Channels/Split.antt =====
-- pkg/channels/split.go: a long text is cut into messages of at most max_len characters, and a code
-- block that is cut is closed and opened again. The code keeps the text and a position in it; all
-- that it looks at lies behind the position, so the state here is the text from there on, and its
-- indices count from there. An index that is not found is `none`.
pub mod Pieces
pub mod Bound
pub mod Lines
pub mod Ends
pub mod Progress
pub mod Plain
pub mod Runaway
pub mod Endless
pub mod Intact
use nook_claw.Prelude.{
  ℕ, zero, suc, ◌+◌, ◌-◌, ◌/◌, max, min, Bool, true, false, not, ◌&&◌, ◌||◌, Option, none, some,
  List, [], ◌∷◌, ◌++◌, ltb, leb, ◌==◌, length, take, drop, get_elem?, if◌then◌else◌,
}
use nook_claw.Prelude.Text.{Text, codes, trim_space, is_space, trim_left, trim_right}

abbrev pub is_newline : ℕ → Bool
is_newline c = c == b'\n'

abbrev pub is_gap : ℕ → Bool
is_gap c = c == b' ' || c == b'\t'

-- The cutset " \t\n\r", and what the loop behind a chunk skips.
abbrev pub is_blank : ℕ → Bool
is_blank c = c == b' ' || c == b'\t' || c == b'\n' || c == b'\r'

unfoldable pub skip_blank : Text → Text
skip_blank [] = []
skip_blank (c ∷ cs) = if is_blank c then skip_blank cs else c ∷ cs

abbrev pub keep_blank : ℕ → Text → Text
keep_blank c [] = if is_blank c then [] else c ∷ []
keep_blank c (d ∷ ds) = c ∷ d ∷ ds

-- strings.TrimRight(s, " \t\n\r")
unfoldable pub trim_right_blank : Text → Text
trim_right_blank [] = []
trim_right_blank (c ∷ cs) = keep_blank c (trim_right_blank cs)

abbrev pub is_at : (ℕ → Bool) → Option ℕ → Bool
is_at p none = false
is_at p (some c) = p c

-- The loops of findLastNewlineInRange and findLastSpaceInRange, from the end down to `first`.
unfoldable pub find_last : (ℕ → Bool) → Text → ℕ → ℕ → Option ℕ
find_last p text first zero = none
find_last p text first (suc i) =
    let earlier = find_last p text first i in
    if ltb i first then none else if is_at p (get_elem? text i) then some i else earlier

abbrev pub find_last_newline_in_range : Text → ℕ → Option ℕ
find_last_newline_in_range text end = find_last is_newline text (end - 200) end

abbrev pub find_last_space_in_range : Text → ℕ → Option ℕ
find_last_space_in_range text end = find_last is_gap text (end - 100) end

-- ```
abbrev pub is_fence : Text → Bool
is_fence (c ∷ d ∷ e ∷ cs) = c == b'`' && d == b'`' && e == b'`'
is_fence _ = false

-- The loop of findLastUnclosedCodeBlockInRange at index i; the next `skip` characters belong to a
-- fence.
unfoldable pub last_unclosed : Bool → Option ℕ → ℕ → ℕ → Text → Option ℕ
last_unclosed inside last i skip [] = if inside then last else none
last_unclosed inside last i (suc skip) (c ∷ cs) = last_unclosed inside last (suc i) skip cs
last_unclosed inside last i zero (c ∷ cs) =
    let here = is_fence (c ∷ cs) in
    last_unclosed (if here then not inside else inside)
      (if here && not inside then some i else last) (suc i) (if here then 2 else 0) cs

abbrev pub find_last_unclosed_code_block_in_range : Text → ℕ → Option ℕ
find_last_unclosed_code_block_in_range text end = last_unclosed false none 0 0 (take end text)

unfoldable pub next_closing : ℕ → Text → Option ℕ
next_closing i [] = none
next_closing i (c ∷ cs) =
    let later = next_closing (suc i) cs in if is_fence (c ∷ cs) then some (i + 3) else later

abbrev pub find_next_closing_code_block_in_range : Text → ℕ → Option ℕ
find_next_closing_code_block_in_range text from = next_closing from (drop from text)

unfoldable pub next_newline : ℕ → Text → Option ℕ
next_newline i [] = none
next_newline i (c ∷ cs) =
    let later = next_newline (suc i) cs in if is_newline c then some i else later

abbrev pub find_newline_from : Text → ℕ → Option ℕ
find_newline_from text from = next_newline from (drop from text)

abbrev pub code_block_buffer : ℕ → ℕ
code_block_buffer max_len = min (max (max_len / 10) 50) (max_len / 2)

abbrev pub effective_limit : ℕ → ℕ
effective_limit max_len = max (max_len - code_block_buffer max_len) (max_len / 2)

-- An index behind the start, or the next choice.
abbrev pub or_choice : Option ℕ → ℕ → ℕ
or_choice (some (suc i)) next = suc i
or_choice _ next = next

unfoldable pub natural_end : ℕ → Text → ℕ
natural_end max_len text =
    let end = effective_limit max_len in
    or_choice (find_last_newline_in_range text end)
      (or_choice (find_last_space_in_range text end) end)

-- A chunk, and the text that is left.
abbrev pub Cut : Type 0
Cut = Text × Text

abbrev pub cut_at : ℕ → Text → ℕ → Cut
cut_at max_len text end =
    let at = if end == 0 then effective_limit max_len else end in
    (take at text, skip_blank (drop at text))

-- The fence is closed behind the chunk, and opened again before the rest.
abbrev pub inject_at : Text → Text → ℕ → Cut
inject_at header text at = (
  trim_right_blank (take at text) ++ codes "\n```",
  trim_space (header ++ (b'\n' ∷ drop at text)),
)

abbrev pub header_of : Text → ℕ → Option ℕ → Text
header_of text opening none = trim_space (take 3 (drop opening text))
header_of text opening (some end) = trim_space (take (end - opening) (drop opening text))

abbrev pub header_end : ℕ → Text → Option ℕ → ℕ
header_end opening header none = opening + length header
header_end opening header (some end) = end

-- Where max_len is below 5, no range has room for a fence, and this is not reached.
abbrev pub inner_limit : ℕ → Text → ℕ
inner_limit max_len text = min (max_len - 5) (length text)

abbrev pub better_end : ℕ → ℕ → Option ℕ → ℕ
better_end header_end limit none = limit
better_end header_end limit (some at) = if ltb header_end at then at else limit

-- Before the block, or else in it.
abbrev pub before_block : ℕ → Text → ℕ → Text → ℕ → Cut
before_block max_len text opening header zero =
    if ltb 20 opening
    then cut_at max_len text opening
    else inject_at header text (inner_limit max_len text)
before_block max_len text opening header (suc at) = cut_at max_len text (suc at)

unfoldable pub split_block : ℕ → Text → ℕ → ℕ → Cut
split_block max_len text end opening =
    let newline = find_newline_from text opening in
    let header = header_of text opening newline in
    let limit = inner_limit max_len text in
    let head = header_end opening header newline in
    if ltb (head + 20) end
    then inject_at header text (better_end head limit (find_last_newline_in_range text limit))
    else before_block max_len text opening header (
        or_choice (find_last_newline_in_range text opening)
          (or_choice (find_last_space_in_range text opening) 0))

abbrev pub to_closing : ℕ → Text → ℕ → ℕ → Option ℕ → Cut
to_closing max_len text end opening none = split_block max_len text end opening
to_closing max_len text end opening (some closing) =
    if leb closing max_len
    then cut_at max_len text closing
    else split_block max_len text end opening

abbrev pub around_block : ℕ → Text → ℕ → Option ℕ → Cut
around_block max_len text end none = cut_at max_len text end
around_block max_len text end (some opening) =
    if ltb end (length text)
    then to_closing max_len text end opening (find_next_closing_code_block_in_range text end)
    else cut_at max_len text end

-- One round of the loop of SplitMessage.
unfoldable pub split_step : ℕ → Text → Cut
unfolding natural_end split_block
split_step max_len text =
    let end = natural_end max_len text in
    if leb (length text) max_len
    then (text, [])
    else around_block max_len text end (find_last_unclosed_code_block_in_range text end)

-- The loop, cut off after some rounds: the chunks, and what is left of the text.
unfoldable pub split_rounds : ℕ → ℕ → Text → List Text × Text
unfolding split_step
split_rounds zero max_len text = ([], text)
split_rounds (suc fuel) max_len [] = ([], [])
split_rounds (suc fuel) max_len (c ∷ cs) =
    let (chunk, rest) = split_step max_len (c ∷ cs) in
    let (chunks, left) = split_rounds fuel max_len rest in (chunk ∷ chunks, left)

-- `max_len` is 0 where the code's is not positive.
unfoldable pub split_message : ℕ → Text → ℕ → List Text × Text
unfolding split_rounds
split_message fuel content zero = elim content [ [] ↦ ([], []) | c ∷ cs ↦ ((c ∷ cs) ∷ [], []) ]
split_message fuel content (suc n) = split_rounds fuel (suc n) content
