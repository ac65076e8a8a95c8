-- ===== src/Channels/Split/Lines.antt =====
-- The lines of a text, and what pkg/channels/split.go makes of them when it cuts and trims.
use nook_claw.Prelude.{
  ℕ, zero, suc, ◌+◌, ◌-◌, ◌≤◌, ◌<◌, ◌≡◌, refl, Bool, true, false, ◌&&◌, some, [], ◌∷◌, ◌++◌, ltb,
  ◌==◌, length, take, drop, arith, if◌then◌else◌,
}
use nook_claw.Prelude.Text.{Text, trim_left, trim_right, trim_space}
use nook_claw.Channels.Split.{is_newline, skip_blank, next_newline}

-- Every line has less than n characters; k of the first have been seen.
unfoldable pub has_short_lines : ℕ → ℕ → Text → Bool
has_short_lines n k [] = true
has_short_lines n k (c ∷ cs) =
    let rest = has_short_lines n (if is_newline c then 0 else suc k) cs in
    if is_newline c then rest else ltb (suc k) n && rest

short-fewer :
    (n k j : ℕ) (s : Text) → j ≤ k → has_short_lines n k s ≡ true → has_short_lines n j s ≡ true
unfolding has_short_lines
short-fewer n k j [] h e = refl
short-fewer n k j (c ∷ cs) h e = ground (arith, short-fewer n (suc k) (suc j) cs)

short-tail :
    (n k c : ℕ) (cs : Text) → has_short_lines n k (c ∷ cs) ≡ true → has_short_lines n 0 cs ≡ true
unfolding has_short_lines
short-tail n k c cs e = ground (arith, short-fewer n (suc k) 0 cs)

pub short-drop :
    (n m : ℕ) (s : Text) → has_short_lines n 0 s ≡ true → has_short_lines n 0 (drop m s) ≡ true
short-drop n zero s e = e
short-drop n (suc m) [] e = e
short-drop n (suc m) (c ∷ cs) e = short-drop n m cs (short-tail n 0 c cs e)

pub short-skip_blank :
    (n : ℕ) (s : Text) → has_short_lines n 0 s ≡ true → has_short_lines n 0 (skip_blank s) ≡ true
unfolding skip_blank
short-skip_blank n [] e = e
short-skip_blank n (c ∷ cs) e = ground (arith, short-skip_blank n cs, short-tail n 0 c cs e, e)

short-trim_left :
    (n : ℕ) (s : Text) → has_short_lines n 0 s ≡ true → has_short_lines n 0 (trim_left s) ≡ true
unfolding trim_left
short-trim_left n [] e = e
short-trim_left n (c ∷ cs) e = ground (arith, short-trim_left n cs, short-tail n 0 c cs e, e)

-- The start of a text.
abbrev is_start : Text → Text → Bool
is_start [] s = true
is_start (c ∷ cs) [] = false
is_start (c ∷ cs) (d ∷ ds) = (c == d) && is_start cs ds

short-start :
    (n k : ℕ) (r s : Text)
    → is_start r s ≡ true
    → has_short_lines n k s ≡ true
    → has_short_lines n k r ≡ true
unfolding has_short_lines
short-start n k [] s h e = refl
short-start n k (c ∷ cs) [] h e = absurd (ground arith)
short-start n k (c ∷ cs) (d ∷ ds) h e =
    ground (arith, short-start n 0 cs ds, short-start n (suc k) cs ds)

start-trim_right : (s : Text) → is_start (trim_right s) s ≡ true
unfolding trim_right
start-trim_right [] = refl
start-trim_right (c ∷ cs) = ground (arith, start-trim_right cs)

start-take : (m : ℕ) (s : Text) → is_start (take m s) s ≡ true
start-take zero s = refl
start-take (suc m) [] = refl
start-take (suc m) (c ∷ cs) = ground (arith, start-take m cs)

pub short-trim_space :
    (n : ℕ) (s : Text) → has_short_lines n 0 s ≡ true → has_short_lines n 0 (trim_space s) ≡ true
unfolding trim_space
short-trim_space n s e =
    short-start n 0 (trim_right (trim_left s)) (trim_left s) (start-trim_right (trim_left s))
      (short-trim_left n s e)

pub short-take :
    (n m : ℕ) (s : Text) → has_short_lines n 0 s ≡ true → has_short_lines n 0 (take m s) ≡ true
short-take n m s e = short-start n 0 (take m s) s (start-take m s) e

-- Lines that are set below one another.
pub short-join :
    (n k : ℕ) (r s : Text)
    → has_short_lines n k r ≡ true
    → has_short_lines n 0 s ≡ true
    → has_short_lines n k (r ++ (b'\n' ∷ s)) ≡ true
unfolding has_short_lines
short-join n k [] s h e = e
short-join n k (c ∷ cs) s h e = ground (arith, short-join n 0 cs s, short-join n (suc k) cs s, e)

pub newline-near :
    (n k i : ℕ) (s : Text) (j : ℕ)
    → k < n
    → has_short_lines n k s ≡ true
    → next_newline i s ≡ some j
    → (i ≤ j) × (k + (j - i) < n)
unfolding has_short_lines next_newline
newline-near n k i [] j h e f = absurd (ground arith)
newline-near n k i (c ∷ cs) j h e f = ground (arith, newline-near n (suc k) (suc i) cs j)

length-trim_left : (s : Text) → length (trim_left s) ≤ length s
unfolding trim_left
length-trim_left [] = omega arith
length-trim_left (c ∷ cs) = ground (arith, length-trim_left cs)

length-trim_right : (s : Text) → length (trim_right s) ≤ length s
unfolding trim_right
length-trim_right [] = omega arith
length-trim_right (c ∷ cs) = ground (arith, length-trim_right cs)

pub length-trim_space : (s : Text) → length (trim_space s) ≤ length s
unfolding trim_space
length-trim_space s = omega (arith, length-trim_left s, length-trim_right (trim_left s))

pub length-skip_blank : (s : Text) → length (skip_blank s) ≤ length s
unfolding skip_blank
length-skip_blank [] = omega arith
length-skip_blank (c ∷ cs) = ground (arith, length-skip_blank cs)
