-- ===== src/Channels/Split/Bound.antt =====
-- The lengths of the messages that pkg/channels/split.go makes.
use nook_claw.Prelude.{
  ℕ, zero, suc, ◌≤◌, ◌<◌, ◌≡◌, refl, Option, none, some, [], ◌∷◌, All, ltb, leb, length, arith,
  if_both, Bool-cases, inl, inr,
}
use nook_claw.Prelude.Text.{Text}
use nook_claw.Channels.Split.{
  find_last_unclosed_code_block_in_range, find_next_closing_code_block_in_range, natural_end, Cut,
  cut_at, to_closing, around_block, split_step, split_rounds, split_message,
}
use nook_claw.Channels.Split.Pieces.{
  effective_limit_bounds, natural_end_le, unclosed-lt, unclosed-room, cut_at-bound,
  split_block-bound,
}

module _ (max_len : ℕ) (text : Text) (pos : 0 < max_len) where
  to_closing-bound :
      (end opening : ℕ) (o : Option ℕ)
      → 5 ≤ max_len
      → opening ≤ max_len
      → length (to_closing max_len text end opening o).0 ≤ max_len
  to_closing-bound end opening none room h = split_block-bound max_len text room end opening h
  to_closing-bound end opening (some closing) room h = elim (Bool-cases (leb closing max_len)) [
    | inl e ↦ rw e (cut_at-bound max_len closing text pos (ground (arith, e)))
    | inr e ↦ rw e (split_block-bound max_len text room end opening h)
  ]

  around_block-bound :
      (end : ℕ) (o : Option ℕ)
      → end ≤ max_len
      → ((k : ℕ) → o ≡ some k → (5 ≤ max_len) × (k < end))
      → length (around_block max_len text end o).0 ≤ max_len
  around_block-bound end none h k = cut_at-bound max_len end text pos h
  around_block-bound end (some opening) h k =
      let closing = find_next_closing_code_block_in_range text end in
      let (room, below) = k opening refl in
      if_both (λ (r : Cut). length r.0 ≤ max_len) (ltb end (length text))
        (to_closing max_len text end opening closing) (cut_at max_len text end)
        (to_closing-bound end opening closing room (omega (arith, below)))
        (cut_at-bound max_len end text pos h)

  split_step-bound : length (split_step max_len text).0 ≤ max_len
  unfolding split_step
  split_step-bound =
      let end = natural_end max_len text in
      let within : end ≤ max_len =
        omega (arith, natural_end_le max_len text, effective_limit_bounds max_len pos) in
      elim (Bool-cases (leb (length text) max_len)) [
        | inl e ↦ rw e (ground (arith, e))
        | inr e ↦ rw e (
            around_block-bound end (find_last_unclosed_code_block_in_range text end) within
              (λ k f. (unclosed-room max_len text k f, unclosed-lt text end k f)))
      ]

split_rounds-bound :
    (fuel max_len : ℕ) (text : Text)
    → 0 < max_len
    → All (λ chunk. length chunk ≤ max_len) (split_rounds fuel max_len text).0
unfolding split_rounds
split_rounds-bound zero max_len text pos = tt
split_rounds-bound (suc fuel) max_len [] pos = tt
split_rounds-bound (suc fuel) max_len (c ∷ cs) pos = (
  split_step-bound max_len (c ∷ cs) pos,
  split_rounds-bound fuel max_len (split_step max_len (c ∷ cs)).1 pos,
)

-- Every message that SplitMessage makes of a text has at most max_len characters, the fences that
-- it adds included, whatever the text and however many rounds the loop has run.
pub split_message-bound :
    (fuel max_len : ℕ) (content : Text)
    → 0 < max_len
    → All (λ chunk. length chunk ≤ max_len) (split_message fuel content max_len).0
unfolding split_message
split_message-bound fuel zero content pos = absurd (omega arith)
split_message-bound fuel (suc n) content pos = split_rounds-bound fuel (suc n) content pos
