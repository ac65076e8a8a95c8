-- ===== src/Channels/Split/Pieces.antt =====
-- The indices that pkg/channels/split.go finds, and the lengths of what it cuts off.
use nook_claw.Prelude.{
  ℕ, zero, suc, ◌+◌, ◌-◌, ◌≤◌, ◌<◌, ◌≡◌, refl, Bool, false, not, ◌&&◌, Option, none, some, List, [],
  ◌∷◌, ltb, leb, ◌==◌, length, length-append, take, arith, if◌then◌else◌, if_both, Bool-cases, inl,
  inr,
}
use nook_claw.Prelude.Text.{Text, codes}
use nook_claw.Channels.Split.{
  is_newline, is_gap, trim_right_blank, find_last, is_fence, last_unclosed,
  find_last_newline_in_range, find_last_space_in_range, find_last_unclosed_code_block_in_range,
  find_newline_from, effective_limit, or_choice, natural_end, Cut, cut_at, inject_at, header_of,
  header_end, inner_limit, better_end, before_block, split_block,
}

pub length-take_le {ℓ} : {A : Type ℓ} (n : ℕ) (xs : List A) → length (take n xs) ≤ n
length-take_le zero xs = omega arith
length-take_le (suc n) [] = omega arith
length-take_le (suc n) (x ∷ xs) = omega (arith, length-take_le n xs)

pub length-trim_right_blank : (s : Text) → length (trim_right_blank s) ≤ length s
unfolding trim_right_blank
length-trim_right_blank [] = omega arith
length-trim_right_blank (c ∷ cs) = ground (arith, length-trim_right_blank cs)

pub find_last-lt :
    (p : ℕ → Bool) (text : Text) (first n i : ℕ) → find_last p text first n ≡ some i → i < n
unfolding find_last
find_last-lt p text first zero i e = absurd (ground arith)
find_last-lt p text first (suc n) i e = ground (arith, find_last-lt p text first n i)

pub or_choice_le :
    (p : ℕ → Bool) (text : Text) (first n next : ℕ)
    → next ≤ n
    → or_choice (find_last p text first n) next ≤ n
or_choice_le p text first n next h =
    chosen (find_last p text first n) (λ i e. find_last-lt p text first n i e)
  where
    chosen : (o : Option ℕ) → ((i : ℕ) → o ≡ some i → i < n) → or_choice o next ≤ n
    chosen none k = h
    chosen (some zero) k = h
    chosen (some (suc i)) k = omega (arith, k (suc i) refl)

pub effective_limit_bounds :
    (max_len : ℕ)
    → 0 < max_len
    → (0 < effective_limit max_len) × (effective_limit max_len ≤ max_len)
effective_limit_bounds max_len h = (omega arith, omega arith)

pub natural_end_le :
    (max_len : ℕ) (text : Text) → natural_end max_len text ≤ effective_limit max_len
unfolding natural_end
natural_end_le max_len text =
    let end = effective_limit max_len in
    or_choice_le is_newline text (end - 200) end (or_choice (find_last_space_in_range text end) end)
      (or_choice_le is_gap text (end - 100) end end (omega arith))

last_unclosed-lt :
    (inside : Bool) (last : Option ℕ) (i skip : ℕ) (text : Text) (k : ℕ)
    → ((j : ℕ) → last ≡ some j → j < i)
    → last_unclosed inside last i skip text ≡ some k
    → k < i + length text
unfolding last_unclosed
last_unclosed-lt inside last i skip [] k h e = ground (arith, h k)
last_unclosed-lt inside last i (suc skip) (c ∷ cs) k h e =
    omega (arith, last_unclosed-lt inside last (suc i) skip cs k (λ j f. omega (arith, h j f)) e)
last_unclosed-lt inside last i zero (c ∷ cs) k h e =
    let here = is_fence (c ∷ cs) in
    omega (
      arith,
      last_unclosed-lt (if here then not inside else inside)
          (if here && not inside then some i else last) (suc i) (if here then 2 else 0) cs k
          (λ j f. ground (arith, h j, f)) e,
    )

pub unclosed-lt :
    (text : Text) (end k : ℕ) → find_last_unclosed_code_block_in_range text end ≡ some k → k < end
unclosed-lt text end k e = omega (
  arith,
  length-take_le end text,
  last_unclosed-lt false none 0 0 (take end text) k (λ j f. absurd (ground arith)) e,
)

no_room : (text : Text) → length text ≤ 2 → last_unclosed false none 0 0 text ≡ none
unfolding last_unclosed
no_room [] h = refl
no_room (c ∷ []) h = refl
no_room (c ∷ d ∷ []) h = refl
no_room (c ∷ d ∷ e ∷ cs) h = absurd (omega arith)

-- A fence that is open needs a length of five at least.
pub unclosed-room :
    (max_len : ℕ) (text : Text) (k : ℕ)
    → find_last_unclosed_code_block_in_range text (natural_end max_len text) ≡ some k
    → 5 ≤ max_len
unclosed-room max_len text k e = elim (Bool-cases (leb 5 max_len)) [
  | inl h ↦ ground (arith, h)
  | inr h ↦ absurd (
      ground (
        arith,
        e,
        no_room (take (natural_end max_len text) text) (
            ground (
              arith,
              h,
              length-take_le (natural_end max_len text) text,
              natural_end_le max_len text,
            )),
      ))
]

pub cut_at-bound :
    (max_len end : ℕ) (text : Text)
    → 0 < max_len
    → end ≤ max_len
    → length (cut_at max_len text end).0 ≤ max_len
cut_at-bound max_len end text pos h =
    let at = if end == 0 then effective_limit max_len else end in
    ground (arith, length-take_le at text, effective_limit_bounds max_len pos)

inject_at-bound :
    (max_len at : ℕ) (header text : Text)
    → at + 4 ≤ max_len
    → length (inject_at header text at).0 ≤ max_len
inject_at-bound max_len at header text h = omega (
  arith,
  length-append (trim_right_blank (take at text)) (codes "\n```"),
  length-trim_right_blank (take at text),
  length-take_le at text,
)

pub better_end_le :
    (head limit : ℕ) (p : ℕ → Bool) (text : Text) (first : ℕ)
    → better_end head limit (find_last p text first limit) ≤ limit
better_end_le head limit p text first =
    chosen (find_last p text first limit) (λ i e. find_last-lt p text first limit i e)
  where
    chosen : (o : Option ℕ) → ((i : ℕ) → o ≡ some i → i < limit) → better_end head limit o ≤ limit
    chosen none k = omega arith
    chosen (some i) k = ground (arith, k i refl)

module _ (max_len : ℕ) (text : Text) (room : 5 ≤ max_len) where
  before_block-bound :
      (opening : ℕ) (header : Text) (at : ℕ)
      → opening ≤ max_len
      → at ≤ max_len
      → length (before_block max_len text opening header at).0 ≤ max_len
  before_block-bound opening header zero h k =
      if_both (λ (r : Cut). length r.0 ≤ max_len) (ltb 20 opening) (cut_at max_len text opening)
        (inject_at header text (inner_limit max_len text))
        (cut_at-bound max_len opening text (omega arith) h)
        (inject_at-bound max_len (inner_limit max_len text) header text (omega arith))
  before_block-bound opening header (suc at) h k =
      cut_at-bound max_len (suc at) text (omega arith) k

  pub split_block-bound :
      (end opening : ℕ)
      → opening ≤ max_len
      → length (split_block max_len text end opening).0 ≤ max_len
  unfolding split_block
  split_block-bound end opening h =
      let newline = find_newline_from text opening in
      let header = header_of text opening newline in
      let limit = inner_limit max_len text in
      let head = header_end opening header newline in
      let better = better_end head limit (find_last_newline_in_range text limit) in
      let at =
        or_choice (find_last_newline_in_range text opening)
          (or_choice (find_last_space_in_range text opening) 0) in
      let before : at ≤ opening =
        or_choice_le is_newline text (opening - 200) opening
          (or_choice (find_last_space_in_range text opening) 0)
          (or_choice_le is_gap text (opening - 100) opening 0 (omega arith)) in
      if_both (λ (r : Cut). length r.0 ≤ max_len) (ltb (head + 20) end)
        (inject_at header text better) (before_block max_len text opening header at)
        (inject_at-bound max_len better header text
          (omega (arith, better_end_le head limit is_newline text (limit - 200))))
        (before_block-bound opening header at h (omega (arith, before)))
