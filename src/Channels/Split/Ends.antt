-- ===== src/Channels/Split/Ends.antt =====
-- Where the rounds of pkg/channels/split.go cut, and how much they leave.
use nook_claw.Prelude.{
  ℕ, zero, suc, ◌+◌, ◌-◌, ◌≤◌, ◌<◌, ◌≡◌, refl, Bool, true, Option, none, some, ◌∷◌, ◌++◌, ◌==◌,
  length, length-append, length-drop, take, drop, get_elem?, arith, if◌then◌else◌,
}
use nook_claw.Prelude.Text.{Text}
use nook_claw.Channels.Split.{
  is_newline, is_gap, is_at, find_last, find_last_newline_in_range, find_last_space_in_range,
  find_newline_from, effective_limit, or_choice, natural_end, cut_at, inject_at, header_of,
  header_end, inner_limit, better_end,
}
use nook_claw.Channels.Split.Lines.{
  has_short_lines, short-drop, short-trim_space, short-take, newline-near, length-trim_space,
  length-skip_blank,
}
use nook_claw.Channels.Split.Pieces.{length-take_le, effective_limit_bounds, or_choice_le}

find_last_sound :
    (p : ℕ → Bool) (text : Text) (first n i : ℕ)
    → find_last p text first n ≡ some i
    → (first ≤ i) × (i < n) × (is_at p (get_elem? text i) ≡ true)
unfolding find_last
find_last_sound p text first zero i e = absurd (ground arith)
find_last_sound p text first (suc n) i e = ground (arith, find_last_sound p text first n i)

-- What is found lies nowhere before what could be found.
find_last-max :
    (p : ℕ → Bool) (text : Text) (first n j : ℕ)
    → first ≤ j
    → j < n
    → is_at p (get_elem? text j) ≡ true
    → j ≤ or_choice (find_last p text first n) 0
unfolding find_last
find_last-max p text first zero j h k m = absurd (omega arith)
find_last-max p text first (suc n) j h k m = ground (arith, find_last-max p text first n j h)

-- With a greater limit a later newline is found, if one is found behind the start.
later_found :
    (text : Text) (near far i : ℕ) (o : Option ℕ)
    → near ≤ far
    → find_last_newline_in_range text far ≡ some i
    → find_last_newline_in_range text near ≡ o
    → i < near
    → (or_choice o 0 ≤ i) × (i ≤ or_choice o 0)
later_found text near far i none h e f k =
    let (low, below, found) = find_last_sound is_newline text (far - 200) far i e in
    let bound = find_last-max is_newline text (near - 200) near i (omega (arith, low)) k found in
    ground (arith, f, bound)
later_found text near far i (some j) h e f k =
    let (low, below, found) = find_last_sound is_newline text (far - 200) far i e in
    let (low', below', found') = find_last_sound is_newline text (near - 200) near j f in
    let bound = find_last-max is_newline text (near - 200) near i (omega (arith, low)) k found in
    let back = find_last-max is_newline text (far - 200) far j in
    ground (arith, e, f, bound, back, low, below', found')

near_end :
    (head near far next i : ℕ) (q : Option ℕ)
    → near ≤ far
    → or_choice q next ≤ near
    → (i < near → (or_choice q 0 ≤ i) × (i ≤ or_choice q 0))
    → or_choice q next ≤ better_end head far (some i)
near_end head near far next i none h k m = ground (arith, k, m)
near_end head near far next i (some zero) h k m = ground (arith, k, m)
near_end head near far next i (some (suc j)) h k m = ground (arith, k, m)

end_before :
    (text : Text) (head near far next : ℕ) (o : Option ℕ)
    → near ≤ far
    → next ≤ near
    → find_last_newline_in_range text far ≡ o
    → or_choice (find_last_newline_in_range text near) next ≤ better_end head far o
end_before text head near far next none h k e =
    omega (arith, or_choice_le is_newline text (near - 200) near next k)
end_before text head near far next (some i) h k e =
    near_end head near far next i (find_last_newline_in_range text near) h
      (or_choice_le is_newline text (near - 200) near next k)
      (later_found text near far i (find_last_newline_in_range text near) h e refl)

-- The newline that is found nearer to the limit is not before the end that was chosen.
pub better_end_ge :
    (max_len : ℕ) (text : Text) (head : ℕ)
    → 10 ≤ max_len
    → max_len < length text
    → natural_end max_len text
      ≤ better_end head
          (inner_limit max_len text)
          (find_last_newline_in_range text (inner_limit max_len text))
unfolding natural_end
better_end_ge max_len text head h k =
    let end = effective_limit max_len in
    let limit = inner_limit max_len text in
    end_before text head end limit (or_choice (find_last_space_in_range text end) end)
      (find_last_newline_in_range text limit) (omega (arith, h, k))
      (or_choice_le is_gap text (end - 100) end end (omega arith)) refl

pub header_of-short :
    (n : ℕ) (text : Text) (opening : ℕ) (o : Option ℕ)
    → 4 ≤ n
    → has_short_lines n 0 text ≡ true
    → find_newline_from text opening ≡ o
    → let header = header_of text opening o in
      (length header ≤ header_end opening header o)
      × (length header < n)
      × (has_short_lines n 0 header ≡ true)
header_of-short n text opening none h e f =
    let line = take 3 (drop opening text) in
    (
      omega arith,
      omega (arith, length-trim_space line, length-take_le 3 (drop opening text)),
      short-trim_space n line (short-take n 3 (drop opening text) (short-drop n opening text e)),
    )
header_of-short n text opening (some j) h e f =
    let rest = drop opening text in
    let line = take (j - opening) rest in
    let short = short-drop n opening text e in
    let near = newline-near n 0 opening rest j (omega arith) short f in
    let size = length-trim_space line in
    let cut = length-take_le (j - opening) rest in
    (
      omega (arith, size, cut),
      omega (arith, size, cut, near),
      short-trim_space n line (short-take n (j - opening) rest short),
    )

pub cut_at-shorter :
    (max_len end : ℕ) (text : Text)
    → 0 < max_len
    → 0 < length text
    → length (cut_at max_len text end).1 < length text
cut_at-shorter max_len end text pos h =
    let at = if end == 0 then effective_limit max_len else end in
    ground (
      arith,
      length-skip_blank (drop at text),
      length-drop at text,
      effective_limit_bounds max_len pos,
    )

pub inject_at-shorter :
    (header text : Text) (at : ℕ)
    → length header + 2 ≤ at
    → at ≤ length text
    → length (inject_at header text at).1 < length text
inject_at-shorter header text at h k = omega (
  arith,
  length-trim_space (header ++ (b'\n' ∷ drop at text)),
  length-append header (b'\n' ∷ drop at text),
  length-drop at text,
)
