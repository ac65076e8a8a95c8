-- ===== src/Prelude/Text/Laws.antt =====
-- Laws of trimming and lower case.
use Prim.Native.Nat.{ℕ}
use mathlib.Core.Path.{◌≡◌, refl, ap, ap₂, ◌∙◌}
use mathlib.Core.Bool.{false}
use mathlib.Core.List.{◌++◌, [], ◌∷◌}
use native.Mathlib.Omega.{arith}
use nook_claw.Prelude.Text.{
  Text, is_empty, keep_left, is_space, trim_left, trim_right, trim_space, lower, to_lower,
}

-- Empty, or not begun by a space.
abbrev IsLed : Text → Type 0
IsLed [] = Unit
IsLed (c ∷ cs) = is_space c ≡ false

trim_left-IsLed : (s : Text) → IsLed (trim_left s)
unfolding trim_left
trim_left-IsLed [] = tt
trim_left-IsLed (c ∷ cs) = ground (arith, trim_left-IsLed cs)

trim_right-IsLed : (s : Text) → IsLed s → IsLed (trim_right s)
unfolding trim_right
trim_right-IsLed [] h = tt
trim_right-IsLed (c ∷ cs) h = ground arith

trim_left_of-IsLed : (s : Text) → IsLed s → trim_left s ≡ s
unfolding trim_left
trim_left_of-IsLed [] h = refl
trim_left_of-IsLed (c ∷ cs) h = ground arith

pub trim_right_idem : (s : Text) → trim_right (trim_right s) ≡ trim_right s
unfolding trim_right
trim_right_idem [] = refl
trim_right_idem (c ∷ cs) = ground (arith, trim_right_idem cs)

pub trim_space_idem : (s : Text) → trim_space (trim_space s) ≡ trim_space s
unfolding trim_space
trim_space_idem s =
    rw
      (trim_left_of-IsLed (trim_right (trim_left s))
        (trim_right-IsLed (trim_left s) (trim_left-IsLed s)))
      (trim_right_idem (trim_left s))

pub trim_right-append :
    (s t : Text) → is_empty (trim_right t) ≡ false → trim_right (s ++ t) ≡ s ++ trim_right t
unfolding trim_right is_empty
trim_right-append [] t h = refl
trim_right-append (c ∷ cs) t h = keep_nonempty c cs (trim_right t) h (trim_right-append cs t h)
  where
    keep_nonempty :
        (c : ℕ) (cs r : Text)
        → is_empty r ≡ false
        → {u : Text} → u ≡ cs ++ r
        → keep_left c u ≡ c ∷ cs ++ r
    keep_nonempty c [] [] h e = absurd (ground arith)
    keep_nonempty c [] (d ∷ ds) h e = rw e
    keep_nonempty c (d ∷ ds) r h e = rw e

is_space-lower : (c : ℕ) → is_space (lower c) ≡ is_space c
unfolding is_space lower
is_space-lower c = ground arith

pub lower_idem : (c : ℕ) → lower (lower c) ≡ lower c
unfolding lower
lower_idem c = ground arith

pub to_lower_idem : (s : Text) → to_lower (to_lower s) ≡ to_lower s
unfolding to_lower
to_lower_idem [] = refl
to_lower_idem (c ∷ cs) = ap₂ ◌∷◌ (lower_idem c) (to_lower_idem cs)

trim_left-to_lower : (s : Text) → trim_left (to_lower s) ≡ to_lower (trim_left s)
unfolding trim_left to_lower
trim_left-to_lower [] = refl
trim_left-to_lower (c ∷ cs) = ground (arith, is_space-lower c, trim_left-to_lower cs)

pub trim_right-to_lower : (s : Text) → trim_right (to_lower s) ≡ to_lower (trim_right s)
unfolding trim_right to_lower
trim_right-to_lower [] = refl
trim_right-to_lower (c ∷ cs) = ground (arith, is_space-lower c, trim_right-to_lower cs)

pub trim_space-to_lower : (s : Text) → trim_space (to_lower s) ≡ to_lower (trim_space s)
unfolding trim_space
trim_space-to_lower s = rw trim_left-to_lower (trim_right-to_lower (trim_left s))

-- Trimming and lower case together are idempotent.
pub normal_idem :
    (s : Text) → to_lower (trim_space (to_lower (trim_space s))) ≡ to_lower (trim_space s)
normal_idem s =
    ap to_lower (trim_space-to_lower (trim_space s) ∙ ap to_lower (trim_space_idem s))
    ∙ to_lower_idem (trim_space s)
