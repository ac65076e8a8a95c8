-- ===== src/Channels/Split/Endless.antt =====
-- The loop of pkg/channels/split.go on a fence with a long line.
use nook_claw.Prelude.{
  ℕ, zero, suc, ◌-◌, ◌≤◌, ◌<◌, ◌≡◌, refl, ◌∙◌, ap, true, false, [], ◌∷◌, ◌++◌, length,
  length-append, length-drop, drop, drop-append_of_le, arith,
}
use nook_claw.Prelude.Text.{Text, is_space, is_empty, keep_left, trim_left, trim_right, trim_space}
use nook_claw.Channels.Split.{Cut, split_step, split_rounds, split_message}
use nook_claw.Channels.Split.Plain.{
  is_tick, none_of, none_of-drop, trim_right-append, keep-nonempty,
}
use nook_claw.Channels.Split.Runaway.{fenced, fenced-solid, runaway_step}

kept-nonempty : (c : ℕ) (s : Text) → is_space c ≡ false → is_empty (keep_left c s) ≡ false
unfolding is_empty
kept-nonempty c [] h = ground (arith, h)
kept-nonempty c (d ∷ ds) h = refl

trimmed-nonempty :
    (s t : Text) → none_of is_space s ≡ true → 0 < length s → is_empty (trim_right (s ++ t)) ≡ false
unfolding trim_right none_of
trimmed-nonempty [] t h k = absurd (omega arith)
trimmed-nonempty (c ∷ cs) t h k = kept-nonempty c (trim_right (cs ++ t)) (ground arith)

trim_right_line :
    (s zs : Text)
    → is_empty (trim_right zs) ≡ false
    → trim_right (s ++ (b'\n' ∷ zs)) ≡ s ++ (b'\n' ∷ trim_right zs)
unfolding trim_right is_empty
trim_right_line s zs h =
    let kept : trim_right (b'\n' ∷ zs) ≡ b'\n' ∷ trim_right zs =
      keep-nonempty b'\n' (trim_right zs) h in
    trim_right-append s (b'\n' ∷ zs) (ap is_empty kept) ∙ ap (◌++◌ s) kept

module _ (max_len : ℕ) (line : Text) (room : 10 ≤ max_len) (long : max_len ≤ length (fenced line))
    (solid : none_of is_space line ≡ true) (ticks : none_of is_tick line ≡ true) where
  next_rest : Text → Text
  next_rest rest = trim_right (drop (max_len - 5) (fenced line ++ (b'\n' ∷ rest)))

  step_rest :
      (rest : Text)
      → (split_step max_len (fenced line ++ (b'\n' ∷ rest))).1
        ≡ fenced line ++ (b'\n' ∷ next_rest rest)
  unfolding next_rest trim_space trim_left is_space
  step_rest rest =
      let k = max_len - 5 in
      let left = drop k (fenced line) in
      let inside : k ≤ length (fenced line) = omega (arith, long) in
      let stays : is_empty (trim_right (drop k (fenced line ++ (b'\n' ∷ rest)))) ≡ false =
        ap (λ s. is_empty (trim_right s)) (drop-append_of_le k (fenced line) (b'\n' ∷ rest) inside)
        ∙ trimmed-nonempty left (b'\n' ∷ rest)
            (none_of-drop is_space k (fenced line)
              (fenced-solid max_len line room long solid ticks))
            (omega (arith, length-drop k (fenced line), long, room)) in
      ap (λ (r : Cut). r.1) (runaway_step max_len line room long solid ticks rest)
      ∙ trim_right_line (fenced line) (drop k (fenced line ++ (b'\n' ∷ rest))) stays

  rounds_endless :
      (fuel : ℕ) (rest : Text)
      → let (chunks, left) = split_rounds fuel max_len (fenced line ++ (b'\n' ∷ rest)) in
        (length chunks ≡ fuel) × (max_len < length left)
  unfolding split_rounds
  rounds_endless zero rest = (refl, omega (arith, long, length-append (fenced line) (b'\n' ∷ rest)))
  rounds_endless (suc fuel) rest =
      let (count, more) = rounds_endless fuel (next_rest rest) in
      rw (step_rest rest) (ap suc count, more)

-- On a fence whose line is at least as long as a message, and has no white space and no other
-- backtick, followed by a line break, the loop of SplitMessage never ends: however many rounds it
-- has run, each has added a message, and more is left than fits into one.
pub split_message-endless :
    (fuel max_len : ℕ) (line rest : Text)
    → 10 ≤ max_len
    → max_len ≤ length (fenced line)
    → none_of is_space line ≡ true
    → none_of is_tick line ≡ true
    → let (chunks, left) = split_message fuel (fenced line ++ (b'\n' ∷ rest)) max_len in
      (length chunks ≡ fuel) × (max_len < length left)
unfolding split_message
split_message-endless fuel zero line rest room long solid ticks = absurd (omega arith)
split_message-endless fuel (suc n) line rest room long solid ticks =
    rounds_endless (suc n) line room long solid ticks fuel rest
