-- ===== src/Channels/Split/Progress.antt =====
-- What each round of pkg/channels/split.go leaves of the text, and the end of its loop.
use nook_claw.Prelude.{
  ℕ, zero, suc, ◌+◌, ◌-◌, ◌≤◌, ◌<◌, ◌≡◌, refl, true, Option, none, some, [], ◌∷◌, ltb, leb, ◌==◌,
  length, drop, arith, if◌then◌else◌, if_both, Bool-cases, inl, inr,
}
use nook_claw.Prelude.Text.{Text}
use nook_claw.Channels.Split.{
  is_newline, find_last_newline_in_range, find_last_space_in_range,
  find_last_unclosed_code_block_in_range, find_next_closing_code_block_in_range, find_newline_from,
  effective_limit, or_choice, natural_end, Cut, cut_at, inject_at, header_of, header_end,
  inner_limit, better_end, before_block, split_block, to_closing, around_block, split_step,
  split_rounds, split_message,
}
use nook_claw.Channels.Split.Lines.{
  has_short_lines, short-drop, short-skip_blank, short-trim_space, short-join,
}
use nook_claw.Channels.Split.Pieces.{better_end_le}
use nook_claw.Channels.Split.Ends.{
  better_end_ge, header_of-short, cut_at-shorter, inject_at-shorter,
}

-- A shorter text is left, and its lines are short too.
abbrev IsLess : ℕ → Text → Cut → Type 0
IsLess n text r = (length r.1 < length text) × (has_short_lines n 0 r.1 ≡ true)

module _ (max_len : ℕ) (text : Text) (room : 10 ≤ max_len)
    (short : has_short_lines (max_len - 6) 0 text ≡ true) (long : max_len < length text) where
  cut_at-IsLess : (end : ℕ) → IsLess (max_len - 6) text (cut_at max_len text end)
  cut_at-IsLess end =
      let at = if end == 0 then effective_limit max_len else end in
      (
        cut_at-shorter max_len end text (omega (arith, room)) (omega (arith, long)),
        short-skip_blank (max_len - 6) (drop at text) (short-drop (max_len - 6) at text short),
      )

  inject_at-IsLess :
      (header : Text) (at : ℕ)
      → length header + 2 ≤ at
      → at ≤ length text
      → has_short_lines (max_len - 6) 0 header ≡ true
      → IsLess (max_len - 6) text (inject_at header text at)
  inject_at-IsLess header at h k s = (
    inject_at-shorter header text at h k,
    short-trim_space (max_len - 6) _ (
        short-join (max_len - 6) 0 header (drop at text) s
          (short-drop (max_len - 6) at text short)),
  )

  before_block-IsLess :
      (opening : ℕ) (header : Text) (at : ℕ)
      → length header < max_len - 6
      → has_short_lines (max_len - 6) 0 header ≡ true
      → IsLess (max_len - 6) text (before_block max_len text opening header at)
  before_block-IsLess opening header zero h s =
      let limit = inner_limit max_len text in
      if_both (IsLess (max_len - 6) text) (ltb 20 opening) (cut_at max_len text opening)
        (inject_at header text limit) (cut_at-IsLess opening)
        (inject_at-IsLess header limit (omega (arith, h, long)) (omega arith) s)
  before_block-IsLess opening header (suc at) h s = cut_at-IsLess (suc at)

  split_block-IsLess :
      (opening : ℕ)
      → IsLess (max_len - 6) text (split_block max_len text (natural_end max_len text) opening)
  unfolding split_block
  split_block-IsLess opening =
      let end = natural_end max_len text in
      let newline = find_newline_from text opening in
      let header = header_of text opening newline in
      let limit = inner_limit max_len text in
      let head = header_end opening header newline in
      let better = better_end head limit (find_last_newline_in_range text limit) in
      let at =
        or_choice (find_last_newline_in_range text opening)
          (or_choice (find_last_space_in_range text opening) 0) in
      let (size, less, lines) =
        header_of-short (max_len - 6) text opening newline (omega (arith, room)) short refl in
      elim (Bool-cases (ltb (head + 20) end)) [
        | inl e ↦ rw e (
            inject_at-IsLess header better
              (ground (arith, e, size, better_end_ge max_len text head room long))
              (omega (arith, better_end_le head limit is_newline text (limit - 200))) lines)
        | inr e ↦ rw e (before_block-IsLess opening header at less lines)
      ]

  around_block-IsLess :
      (o : Option ℕ)
      → IsLess (max_len - 6) text (around_block max_len text (natural_end max_len text) o)
  around_block-IsLess none = cut_at-IsLess (natural_end max_len text)
  around_block-IsLess (some opening) =
      let end = natural_end max_len text in
      let closing = find_next_closing_code_block_in_range text end in
      if_both (IsLess (max_len - 6) text) (ltb end (length text))
        (to_closing max_len text end opening closing) (cut_at max_len text end)
        (closed opening closing) (cut_at-IsLess end)
    where
      closed :
          (opening : ℕ) (o : Option ℕ)
          → IsLess (max_len - 6) text (to_closing max_len text (natural_end max_len text) opening o)
      closed opening none = split_block-IsLess opening
      closed opening (some closing) =
          if_both (IsLess (max_len - 6) text) (leb closing max_len) (cut_at max_len text closing)
            (split_block max_len text (natural_end max_len text) opening) (cut_at-IsLess closing)
            (split_block-IsLess opening)

split_step-IsLess :
    (max_len : ℕ) (text : Text)
    → 10 ≤ max_len
    → has_short_lines (max_len - 6) 0 text ≡ true
    → 0 < length text
    → IsLess (max_len - 6) text (split_step max_len text)
unfolding split_step has_short_lines
split_step-IsLess max_len text room short some_text =
    elim (Bool-cases (leb (length text) max_len)) [
      | inl e ↦ rw e (some_text, refl)
      | inr e ↦ rw e (
          around_block-IsLess max_len text room short (ground (arith, e))
            (find_last_unclosed_code_block_in_range text (natural_end max_len text)))
    ]

split_rounds-ends :
    (fuel max_len : ℕ) (text : Text)
    → 10 ≤ max_len
    → has_short_lines (max_len - 6) 0 text ≡ true
    → length text ≤ fuel
    → (split_rounds fuel max_len text).1 ≡ []
unfolding split_rounds
split_rounds-ends zero max_len [] room short h = refl
split_rounds-ends zero max_len (c ∷ cs) room short h = absurd (omega arith)
split_rounds-ends (suc fuel) max_len [] room short h = refl
split_rounds-ends (suc fuel) max_len (c ∷ cs) room short h =
    let (less, lines) = split_step-IsLess max_len (c ∷ cs) room short (omega arith) in
    split_rounds-ends fuel max_len (split_step max_len (c ∷ cs)).1 room lines (omega (arith, less))

-- The loop of SplitMessage ends, after at most as many rounds as the text has characters, with
-- nothing of the text left, if a message has room for ten characters and every line of the text has
-- fewer characters than a message less six.
pub split_message-ends :
    (fuel max_len : ℕ) (content : Text)
    → 10 ≤ max_len
    → has_short_lines (max_len - 6) 0 content ≡ true
    → length content ≤ fuel
    → (split_message fuel content max_len).1 ≡ []
unfolding split_message
split_message-ends fuel zero content room short h = absurd (omega arith)
split_message-ends fuel (suc n) content room short h =
    split_rounds-ends fuel (suc n) content room short h
