-- ===== src/Channels/Split/Runaway.antt =====
-- The round of pkg/channels/split.go on a fence whose line is longer than a message.
use nook_claw.Prelude.{
  ℕ, suc, ◌+◌, ◌-◌, ◌≤◌, ◌≡◌, refl, sym, ◌∙◌, ap, Bool, true, false, Option, none, some, [], ◌∷◌,
  ◌++◌, ltb, leb, length, length-append, length-drop, take, drop, take-append_of_le,
  drop-append_of_le, arith,
}
use nook_claw.Prelude.Text.{Text, is_space, trim_left, trim_space}
use nook_claw.Channels.Split.{
  is_newline, is_gap, find_last, last_unclosed, next_closing,
  find_last_unclosed_code_block_in_range, find_next_closing_code_block_in_range, find_newline_from,
  effective_limit, natural_end, inject_at, header_of, inner_limit, split_block, to_closing,
  around_block, split_step,
}
use nook_claw.Channels.Split.Plain.{
  is_tick, none_of, find_last-none, none_of-take, none_of-drop, last_unclosed-plain,
  next_closing-far, next_newline-end, trim_right-plain,
}

none_of-weaker :
    (p q : ℕ → Bool) (s : Text)
    → ((c : ℕ) → p c ≡ true → q c ≡ true)
    → none_of q s ≡ true
    → none_of p s ≡ true
unfolding none_of
none_of-weaker p q [] k h = refl
none_of-weaker p q (c ∷ cs) k h = ground (arith, k c, none_of-weaker p q cs k)

newline_is_space : (c : ℕ) → is_newline c ≡ true → is_space c ≡ true
unfolding is_space
newline_is_space c h = ground arith

gap_is_space : (c : ℕ) → is_gap c ≡ true → is_space c ≡ true
unfolding is_space
gap_is_space c h = ground arith

take-append_length : (s t : Text) → take (length s) (s ++ t) ≡ s
take-append_length [] t = refl
take-append_length (c ∷ cs) t = ap (◌∷◌ c) (take-append_length cs t)

-- A fence with the rest of its line.
abbrev pub fenced : Text → Text
fenced line = b'`' ∷ b'`' ∷ b'`' ∷ line

module _ (max_len : ℕ) (line : Text) (room : 10 ≤ max_len) (long : max_len ≤ length (fenced line))
    (solid : none_of is_space line ≡ true) (ticks : none_of is_tick line ≡ true) where
  pub fenced-solid : none_of is_space (fenced line) ≡ true
  unfolding none_of is_space
  fenced-solid = solid

  no_newline : none_of is_newline (fenced line) ≡ true
  no_newline = none_of-weaker is_newline is_space (fenced line) newline_is_space fenced-solid

  no_gap : none_of is_gap (fenced line) ≡ true
  no_gap = none_of-weaker is_gap is_space (fenced line) gap_is_space fenced-solid

  module _ (rest : Text) where
    abbrev all : Text
    all = fenced line ++ (b'\n' ∷ rest)

    runaway_end : natural_end max_len all ≡ effective_limit max_len
    unfolding natural_end
    runaway_end =
        let end = effective_limit max_len in
        let below : end ≤ length (fenced line) = omega (arith, room, long) in
        ground (
          arith,
          find_last-none is_newline (fenced line) (b'\n' ∷ rest) (end - 200) end no_newline below,
          find_last-none is_gap (fenced line) (b'\n' ∷ rest) (end - 100) end no_gap below,
        )

    taken : (m : ℕ) → m ≤ length line → take (suc (suc (suc m))) all ≡ fenced (take m line)
    taken m h = ap fenced (take-append_of_le m line (b'\n' ∷ rest) h)

    runaway_unclosed :
        (m : ℕ)
        → m ≤ length line
        → find_last_unclosed_code_block_in_range all (suc (suc (suc m))) ≡ some 0
    unfolding last_unclosed
    runaway_unclosed m h =
        ap (last_unclosed false none 0 0) (taken m h)
        ∙ last_unclosed-plain (some 0) 3 (take m line) (none_of-take is_tick m line ticks)

    first_newline : find_newline_from all 0 ≡ some (length (fenced line))
    first_newline = next_newline-end 0 (fenced line) rest no_newline ∙ ap some (omega arith)

    runaway_header : header_of all 0 (some (length (fenced line))) ≡ fenced line
    unfolding trim_space trim_left is_space
    runaway_header =
        ap (λ n. trim_space (take n all)) {y = length (fenced line)} (omega arith)
        ∙ ap trim_space (take-append_length (fenced line) (b'\n' ∷ rest))
        ∙ trim_right-plain (fenced line) fenced-solid

    runaway_block :
        split_block max_len all (effective_limit max_len) 0
        ≡ inject_at (fenced line) all (max_len - 5)
    unfolding split_block find_last
    runaway_block =
        let past : ltb (length (fenced line) + 20) (effective_limit max_len) ≡ false =
          ground (arith, room, long) in
        let limit : inner_limit max_len all ≡ max_len - 5 =
          omega (arith, long, length-append (fenced line) (b'\n' ∷ rest)) in
        rw first_newline (rw runaway_header (rw past (rw limit refl)))

    to_closing-runaway :
        (m : ℕ) (o : Option ℕ)
        → m ≤ length line
        → let end = suc (suc (suc m)) in
          find_next_closing_code_block_in_range all end ≡ o
          → to_closing max_len all end 0 o ≡ split_block max_len all end 0
    to_closing-runaway m none h e = refl
    to_closing-runaway m (some c) h e =
        let far =
          next_closing-far (suc (suc (suc m))) c (drop m line) (b'\n' ∷ rest)
            (none_of-drop is_tick m line ticks)
            (ap (next_closing (suc (suc (suc m)))) (sym (drop-append_of_le m line (b'\n' ∷ rest) h))
              ∙ e) in
        ground (arith, far, length-drop m line, long, h)

    around_block-runaway :
        (end m : ℕ)
        → end ≡ suc (suc (suc m))
        → m ≤ length line
        → around_block max_len all end (find_last_unclosed_code_block_in_range all end)
          ≡ split_block max_len all end 0
    around_block-runaway end m e h =
        let inside : ltb (suc (suc (suc m))) (length all) ≡ true =
          ground (arith, h, length-append line (b'\n' ∷ rest)) in
        rw e (
          ap (around_block max_len all (suc (suc (suc m)))) (runaway_unclosed m h)
          ∙ rw inside (to_closing-runaway m _ h refl))

    pub runaway_step : split_step max_len all ≡ inject_at (fenced line) all (max_len - 5)
    unfolding split_step
    runaway_step =
        let too_long : leb (length all) max_len ≡ false =
          ground (arith, long, length-append line (b'\n' ∷ rest)) in
        rw too_long (
          rw runaway_end (
            around_block-runaway (effective_limit max_len) (effective_limit max_len - 3)
              (omega (arith, room)) (omega (arith, long)))
          ∙ runaway_block)
