-- ===== src/Memory/Codec.antt =====
-- The JSON encoding of messages, which encoding/json does for pkg/memory, and what the store relies
-- on. Of a message `stored` is what its JSON stands for: the fields that are tagged json:"-" in
-- pkg/providers/protocoltypes/types.go are left out of it.
use nook_claw.Prelude.{ℕ, ◌≤◌, ◌<◌, ◌≡◌, ◌≢◌, Option, none, some, List, [], ◌∷◌, length, take}

abbrev pub Bytes : Type 0
Bytes = List ℕ

abbrev pub newline : ℕ
newline = 10

abbrev pub carriage_return : ℕ
carriage_return = 13

-- The line is not empty and holds no line feed and no carriage return.
abbrev pub IsLine : Bytes → Type 0
IsLine [] = ⊥
IsLine (c ∷ []) = (c ≢ newline) × (c ≢ carriage_return)
IsLine (c ∷ d ∷ ds) = (c ≢ newline) × (c ≢ carriage_return) × IsLine (d ∷ ds)

pub record Codec (M : Type 0) : Type 0 where
  pub marshal : M → Option Bytes
  pub unmarshal : Bytes → Option M
  pub stored : M → M
  -- An encoded message decodes to what its JSON stands for, which can be encoded again, in no longer
  -- a line, and loses no more.
  pub round_trip : (m : M) (l : Bytes) → marshal m ≡ some l → unmarshal l ≡ some (stored m)
  pub again :
      (m : M) (l : Bytes)
      → marshal m ≡ some l
      → (l' : Bytes) × (marshal (stored m) ≡ some l') × (length l' ≤ length l)
  pub stored_again : (m : M) → stored (stored m) ≡ stored m
  -- An encoded message is one line, and no part of it decodes.
  pub is_line : (m : M) (l : Bytes) → marshal m ≡ some l → IsLine l
  pub partial :
      (m : M) (l : Bytes) (n : ℕ) → marshal m ≡ some l → n < length l → unmarshal (take n l) ≡ none
