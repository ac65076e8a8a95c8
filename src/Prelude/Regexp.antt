-- ===== src/Prelude/Regexp.antt =====
-- What the code uses of the regexp package: sequences of characters of a class, greedy repetition
-- of a class, an optional character, word boundaries and one group; the leftmost match that
-- backtracking finds first. Texts are lower case where a pattern is compiled with `(?i)`.
use Prim.Native.Nat.{ℕ}
use Prim.Native.String.{String}
use mathlib.Core.Bool.{Bool, true, false, not, ◌&&◌, ◌||◌, xor}
use mathlib.Core.List.{List, [], ◌∷◌, map}
use mathlib.Core.Option.{Option, none, some}
use nook_claw.Prelude.Tests.{leb, ◌==◌}
use nook_claw.Prelude.Text.{Text, codes}

abbrev pub Class : Type 0
Class = ℕ → Bool

pub data Atom : Type 0 where
  one : Class → Atom
  many : Class → Atom
  maybe : Class → Atom
  -- a character of the group
  grouped : Class → Atom
  word_boundary : Atom

abbrev pub Pattern : Type 0
Pattern = List Atom

abbrev pub digit : Class
digit c = leb b'0' c && leb c b'9'

-- `\s`: tab, line feed, form feed, carriage return, space
abbrev pub blank : Class
blank c = c == 9 || c == 10 || c == 12 || c == 13 || c == 32

-- `.`: anything but a line feed
abbrev pub any : Class
any c = not (c == 10)

abbrev pub one_of : String → Class
one_of s c = mem (codes s)
  where
    mem : Text → Bool
    mem [] = false
    mem (d ∷ ds) = c == d || mem ds

abbrev pub literal : String → Pattern
literal s = map (λ d. one (λ c. c == d)) (codes s)

-- `+`
abbrev pub at_least_one : Class → Pattern
at_least_one p = one p ∷ many p ∷ []

abbrev pub is_word : ℕ → Bool
is_word c = digit c || (leb b'a' c && leb c b'z') || (leb b'A' c && leb c b'Z') || c == b'_'

abbrev pub next_is_word : Text → Bool
next_is_word [] = false
next_is_word (c ∷ cs) = is_word c

abbrev pub or_else : Option Text → Option Text → Option Text
or_else none r = r
or_else (some t) r = some t

abbrev pub group_with : ℕ → Option Text → Option Text
group_with c none = none
group_with c (some t) = some (c ∷ t)

-- A match at the front of the text: the characters of the group. The Boolean is whether the
-- character before is one of a word.
unfoldable pub match_at : Pattern → Bool → Text → Option Text
match_at [] before s = some []
match_at (word_boundary ∷ re) before s = elim (xor before (next_is_word s)) [
  | true ↦ match_at re before s
  | false ↦ none
]
match_at (one p ∷ re) before [] = none
match_at (one p ∷ re) before (c ∷ cs) = elim (p c) [
  | true ↦ match_at re (is_word c) cs
  | false ↦ none
]
match_at (grouped p ∷ re) before [] = none
match_at (grouped p ∷ re) before (c ∷ cs) = elim (p c) [
  | true ↦ group_with c (match_at re (is_word c) cs)
  | false ↦ none
]
match_at (maybe p ∷ re) before [] = match_at re before []
match_at (maybe p ∷ re) before (c ∷ cs) = elim (p c) [
  | true ↦ let skipped = match_at re before (c ∷ cs) in or_else (match_at re (is_word c) cs) skipped
  | false ↦ match_at re before (c ∷ cs)
]
match_at (many p ∷ re) before [] = match_at re before []
match_at (many p ∷ re) before (c ∷ cs) = elim (p c) [
  | true ↦
      let stopped = match_at re before (c ∷ cs) in
      or_else (match_at (many p ∷ re) (is_word c) cs) stopped
  | false ↦ match_at re before (c ∷ cs)
]

-- The group of the leftmost match.
unfoldable pub find_from : Pattern → Bool → Text → Option Text
unfolding match_at
find_from re before [] = match_at re before []
find_from re before (c ∷ cs) =
    let later = find_from re (is_word c) cs in or_else (match_at re before (c ∷ cs)) later

-- regexp.FindStringSubmatch, the group only
unfoldable pub find_submatch : Pattern → Text → Option Text
unfolding find_from
find_submatch re s = find_from re false s

-- regexp.MatchString
unfoldable pub match_string : Pattern → Text → Bool
unfolding find_submatch
match_string re s = elim (find_submatch re s) [ none ↦ false | some t ↦ true ]
