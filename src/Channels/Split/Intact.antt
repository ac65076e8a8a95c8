-- ===== src/Channels/Split/Intact.antt =====
-- What pkg/channels/split.go keeps of a text without fences.
use nook_claw.Prelude.{
  ℕ, zero, suc, ◌≤◌, ◌<◌, ◌≡◌, refl, ◌∙◌, ap, Bool, true, false, not, ◌&&◌, none, List, [], ◌∷◌,
  ◌++◌, leb, ◌==◌, length, take, drop, arith, if◌then◌else◌, Bool-cases, inl, inr,
}
use nook_claw.Prelude.Text.{Text}
use nook_claw.Channels.Split.{
  is_blank, skip_blank, is_fence, last_unclosed, find_last_unclosed_code_block_in_range,
  effective_limit, natural_end, Cut, cut_at, split_step, split_rounds, split_message,
}
use nook_claw.Channels.Split.Ends.{cut_at-shorter}

-- The characters of a text that are not blank, in their order.
unfoldable pub ink : Text → Text
ink [] = []
ink (c ∷ cs) = let rest = ink cs in if is_blank c then rest else c ∷ rest

unfoldable pub joined : List Text → Text
joined [] = []
joined (s ∷ ss) = s ++ joined ss

unfoldable pub has_no_fence : Text → Bool
has_no_fence [] = true
has_no_fence (c ∷ cs) = not (is_fence (c ∷ cs)) && has_no_fence cs

ink-append : (s t : Text) → ink (s ++ t) ≡ ink s ++ ink t
unfolding ink
ink-append [] t = refl
ink-append (c ∷ cs) t = ground (arith, ink-append cs t)

ink-skip_blank : (s : Text) → ink (skip_blank s) ≡ ink s
unfolding ink skip_blank
ink-skip_blank [] = refl
ink-skip_blank (c ∷ cs) = ground (arith, ink-skip_blank cs)

ink-cut : (n : ℕ) (s : Text) → ink (take n s) ++ ink (drop n s) ≡ ink s
unfolding ink
ink-cut zero s = refl
ink-cut (suc n) [] = refl
ink-cut (suc n) (c ∷ cs) = ground (arith, ink-cut n cs)

no_fence-drop : (n : ℕ) (s : Text) → has_no_fence s ≡ true → has_no_fence (drop n s) ≡ true
unfolding has_no_fence
no_fence-drop zero s h = h
no_fence-drop (suc n) [] h = h
no_fence-drop (suc n) (c ∷ cs) h = no_fence-drop n cs (ground arith)

no_fence-skip_blank : (s : Text) → has_no_fence s ≡ true → has_no_fence (skip_blank s) ≡ true
unfolding has_no_fence skip_blank
no_fence-skip_blank [] h = h
no_fence-skip_blank (c ∷ cs) h = ground (arith, no_fence-skip_blank cs, h)

fence-take : (n c : ℕ) (cs : Text) → is_fence (c ∷ cs) ≡ false → is_fence (c ∷ take n cs) ≡ false
fence-take zero c cs h = refl
fence-take (suc n) c [] h = refl
fence-take (suc zero) c (d ∷ ds) h = refl
fence-take (suc (suc n)) c (d ∷ []) h = refl
fence-take (suc (suc n)) c (d ∷ e ∷ es) h = h

no_fence-take : (n : ℕ) (s : Text) → has_no_fence s ≡ true → has_no_fence (take n s) ≡ true
unfolding has_no_fence
no_fence-take zero s h = refl
no_fence-take (suc n) [] h = h
no_fence-take (suc n) (c ∷ cs) h = ground (arith, no_fence-take n cs, fence-take n c cs)

none_unclosed : (i : ℕ) (s : Text) → has_no_fence s ≡ true → last_unclosed false none i 0 s ≡ none
unfolding has_no_fence last_unclosed
none_unclosed i [] h = refl
none_unclosed i (c ∷ cs) h = ground (arith, none_unclosed (suc i) cs)

-- The text is kept, and less of it is left, still without a fence.
abbrev IsKept : Text → Cut → Type 0
IsKept text r =
    (ink r.0 ++ ink r.1 ≡ ink text) × (length r.1 < length text) × (has_no_fence r.1 ≡ true)

cut_at-IsKept :
    (max_len end : ℕ) (text : Text)
    → 0 < max_len
    → 0 < length text
    → has_no_fence text ≡ true
    → IsKept text (cut_at max_len text end)
cut_at-IsKept max_len end text pos some_text h =
    let at = if end == 0 then effective_limit max_len else end in
    (
      ap (λ s. ink (take at text) ++ s) (ink-skip_blank (drop at text)) ∙ ink-cut at text,
      cut_at-shorter max_len end text pos some_text,
      no_fence-skip_blank (drop at text) (no_fence-drop at text h),
    )

all_kept : (s : Text) → ink s ++ ink [] ≡ ink s
unfolding ink
all_kept [] = refl
all_kept (c ∷ cs) = ground (arith, all_kept cs)

split_step-IsKept :
    (max_len : ℕ) (text : Text)
    → 0 < max_len
    → 0 < length text
    → has_no_fence text ≡ true
    → IsKept text (split_step max_len text)
unfolding split_step has_no_fence
split_step-IsKept max_len text pos some_text h =
    let end = natural_end max_len text in
    let closed : find_last_unclosed_code_block_in_range text end ≡ none =
      none_unclosed 0 (take end text) (no_fence-take end text h) in
    elim (Bool-cases (leb (length text) max_len)) [
      | inl e ↦ rw e (all_kept text, some_text, refl)
      | inr e ↦ rw e (rw closed (cut_at-IsKept max_len end text pos some_text h))
    ]

split_rounds-kept :
    (fuel max_len : ℕ) (text : Text)
    → 0 < max_len
    → has_no_fence text ≡ true
    → length text ≤ fuel
    → let (chunks, left) = split_rounds fuel max_len text in
      (left ≡ []) × (ink (joined chunks) ≡ ink text)
unfolding split_rounds joined
split_rounds-kept zero max_len [] pos h f = (refl, refl)
split_rounds-kept zero max_len (c ∷ cs) pos h f = absurd (omega arith)
split_rounds-kept (suc fuel) max_len [] pos h f = (refl, refl)
split_rounds-kept (suc fuel) max_len (c ∷ cs) pos h f =
    let text = c ∷ cs in
    let (kept, less, free) = split_step-IsKept max_len text pos (omega arith) h in
    let rest = (split_step max_len text).1 in
    let chunk = (split_step max_len text).0 in
    let ih = split_rounds-kept fuel max_len rest pos free (omega (arith, less)) in
    (
      ih.0,
      ink-append chunk (joined (split_rounds fuel max_len rest).0)
          ∙ ap (◌++◌ (ink chunk)) ih.1
          ∙ kept,
    )

-- A text without fences is cut completely, in at most as many rounds as it has characters, and the
-- messages have all its characters other than blanks, in the same order, and no others.
pub split_message-keeps :
    (fuel max_len : ℕ) (content : Text)
    → 0 < max_len
    → has_no_fence content ≡ true
    → length content ≤ fuel
    → let (chunks, left) = split_message fuel content max_len in
      (left ≡ []) × (ink (joined chunks) ≡ ink content)
unfolding split_message
split_message-keeps fuel zero content pos h f = absurd (omega arith)
split_message-keeps fuel (suc n) content pos h f = split_rounds-kept fuel (suc n) content pos h f
