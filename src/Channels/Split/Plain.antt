-- ===== src/Channels/Split/Plain.antt =====
-- What the searches of pkg/channels/split.go find in a text that starts with characters of which
-- they look for none.
use nook_claw.Prelude.{
  ℕ, zero, suc, ◌+◌, ◌≤◌, ◌<◌, ◌≡◌, refl, ◌∙◌, ap, Bool, true, false, not, ◌&&◌, Option, none, some,
  [], ◌∷◌, ◌++◌, ◌==◌, length, take, drop, get_elem?, arith,
}
use nook_claw.Prelude.Text.{Text, is_space, is_empty, keep_left, trim_right}
use nook_claw.Channels.Split.{
  is_newline, is_at, find_last, is_fence, last_unclosed, next_closing, next_newline,
}

abbrev pub is_tick : ℕ → Bool
is_tick c = c == b'`'

-- No character of the text has the property.
unfoldable pub none_of : (ℕ → Bool) → Text → Bool
none_of p [] = true
none_of p (c ∷ cs) = not (p c) && none_of p cs

none_of-at :
    (p : ℕ → Bool) (s t : Text) (i : ℕ)
    → none_of p s ≡ true
    → i < length s
    → is_at p (get_elem? (s ++ t) i) ≡ false
unfolding none_of
none_of-at p [] t i h k = absurd (omega arith)
none_of-at p (c ∷ cs) t zero h k = ground arith
none_of-at p (c ∷ cs) t (suc i) h k = none_of-at p cs t i (ground arith) (omega arith)

pub find_last-none :
    (p : ℕ → Bool) (s t : Text) (first n : ℕ)
    → none_of p s ≡ true
    → n ≤ length s
    → find_last p (s ++ t) first n ≡ none
unfolding find_last
find_last-none p s t first zero h k = refl
find_last-none p s t first (suc n) h k =
    ground (arith, find_last-none p s t first n h, none_of-at p s t n h (omega arith))

pub none_of-take :
    (p : ℕ → Bool) (n : ℕ) (s : Text) → none_of p s ≡ true → none_of p (take n s) ≡ true
unfolding none_of
none_of-take p zero s h = refl
none_of-take p (suc n) [] h = refl
none_of-take p (suc n) (c ∷ cs) h = ground (arith, none_of-take p n cs)

pub none_of-drop :
    (p : ℕ → Bool) (n : ℕ) (s : Text) → none_of p s ≡ true → none_of p (drop n s) ≡ true
unfolding none_of
none_of-drop p zero s h = h
none_of-drop p (suc n) [] h = h
none_of-drop p (suc n) (c ∷ cs) h = none_of-drop p n cs (ground arith)

no_fence : (c : ℕ) (cs : Text) → is_tick c ≡ false → is_fence (c ∷ cs) ≡ false
no_fence c [] h = refl
no_fence c (d ∷ []) h = refl
no_fence c (d ∷ e ∷ cs) h = ground arith

pub last_unclosed-plain :
    (last : Option ℕ) (i : ℕ) (s : Text)
    → none_of is_tick s ≡ true
    → last_unclosed true last i 0 s ≡ last
unfolding last_unclosed none_of
last_unclosed-plain last i [] h = refl
last_unclosed-plain last i (c ∷ cs) h =
    ground (arith, no_fence c cs, last_unclosed-plain last (suc i) cs)

next_closing-ge : (i c : ℕ) (s : Text) → next_closing i s ≡ some c → i + 3 ≤ c
unfolding next_closing
next_closing-ge i c [] e = absurd (ground arith)
next_closing-ge i c (d ∷ ds) e = ground (arith, next_closing-ge (suc i) c ds)

pub next_closing-far :
    (i c : ℕ) (s t : Text)
    → none_of is_tick s ≡ true
    → next_closing i (s ++ t) ≡ some c
    → i + length s + 3 ≤ c
unfolding next_closing none_of
next_closing-far i c [] t h e = omega (arith, next_closing-ge i c t e)
next_closing-far i c (d ∷ ds) t h e =
    ground (arith, no_fence d (ds ++ t), next_closing-far (suc i) c ds t)

pub next_newline-end :
    (i : ℕ) (s t : Text)
    → none_of is_newline s ≡ true
    → next_newline i (s ++ (b'\n' ∷ t)) ≡ some (i + length s)
unfolding next_newline none_of
next_newline-end i [] t h = ground arith
next_newline-end i (c ∷ cs) t h = ground (arith, next_newline-end (suc i) cs t)

pub trim_right-plain : (s : Text) → none_of is_space s ≡ true → trim_right s ≡ s
unfolding trim_right none_of
trim_right-plain [] h = refl
trim_right-plain (c ∷ cs) h = ground (arith, trim_right-plain cs)

pub empty-append : (s t : Text) → is_empty t ≡ false → is_empty (s ++ t) ≡ false
unfolding is_empty
empty-append [] t h = h
empty-append (c ∷ cs) t h = refl

pub keep-nonempty : (c : ℕ) (s : Text) → is_empty s ≡ false → keep_left c s ≡ c ∷ s
unfolding is_empty
keep-nonempty c [] h = absurd (ground arith)
keep-nonempty c (d ∷ ds) h = refl

-- Nothing in front of a character that stays is trimmed.
pub trim_right-append :
    (s t : Text) → is_empty (trim_right t) ≡ false → trim_right (s ++ t) ≡ s ++ trim_right t
unfolding trim_right
trim_right-append [] t h = refl
trim_right-append (c ∷ cs) t h =
    ap (keep_left c) (trim_right-append cs t h)
    ∙ keep-nonempty c (cs ++ trim_right t) (empty-append cs (trim_right t) h)
