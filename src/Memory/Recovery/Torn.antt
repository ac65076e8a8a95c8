-- ===== src/Memory/Recovery/Torn.antt =====
-- Reading a log of pkg/memory/jsonl.go whose last line was written in part.
use nook_claw.Prelude.{
  ℕ, zero, suc, ◌+◌, ◌-◌, ◌≤◌, ◌<◌, ◌≡◌, refl, ap, ◌⊎◌, inl, inr, false, some, List, [], ◌∷◌, ◌++◌,
  length, drop, take, arith, leb,
}
use nook_claw.Memory.Codec.{Bytes, newline, IsLine, Codec}
use nook_claw.Memory.Disk.{ok, err, line_too_long}
use nook_claw.Memory.Store.{max_line_size, split_lines, keep_decoded, read_messages_from}
use nook_claw.Memory.Store.Lines.{
  Encoded, joined, split_lines-joined, split_lines-append, any_too_long-Encoded, scan-Encoded,
  drop_cr-IsLine, is_empty-IsLine,
}

split_lines-unended : (l : Bytes) → IsLine l → split_lines l ≡ l ∷ []
unfolding split_lines
split_lines-unended [] h = absurd h
split_lines-unended (c ∷ []) h = ground arith
split_lines-unended (c ∷ d ∷ ds) h = ground (arith, split_lines-unended (d ∷ ds) h.2)

pub take-IsLine : (n : ℕ) (l : Bytes) → IsLine l → IsLine (take (suc n) l)
take-IsLine n [] h = absurd h
take-IsLine n (c ∷ []) h = take_one n
  where
    take_one : (n : ℕ) → IsLine (c ∷ take n [])
    take_one zero = h
    take_one (suc n) = h
take-IsLine zero (c ∷ d ∷ ds) h = (h.0, h.1)
take-IsLine (suc n) (c ∷ d ∷ ds) h = (h.0, h.1, take-IsLine n (d ∷ ds) h.2)

-- What an append that stopped after some bytes has written.
pub take-line :
    (n : ℕ) (l : Bytes)
    → ((n < length l) × (take n (l ++ newline ∷ []) ≡ take n l))
      ⊎ ((n ≡ length l) × (take n (l ++ newline ∷ []) ≡ l))
      ⊎ (take n (l ++ newline ∷ []) ≡ l ++ newline ∷ [])
take-line zero [] = inr (inl (refl, refl))
take-line zero (c ∷ cs) = inl (omega arith, refl)
take-line (suc n) [] = inr (inr (take_one n))
  where
    take_one : (n : ℕ) → newline ∷ take n [] ≡ newline ∷ []
    take_one zero = refl
    take_one (suc n) = refl
take-line (suc n) (c ∷ cs) = elim (take-line n cs) [
  | inl (lt, e) ↦ inl (omega arith, ap (◌∷◌ c) e)
  | inr (inl (eq, e)) ↦ inr (inl (omega arith, ap (◌∷◌ c) e))
  | inr (inr e) ↦ inr (inr (ap (◌∷◌ c) e))
]

pub length-take-lt : (n : ℕ) (l : Bytes) → n < length l → length (take n l) ≡ n
length-take-lt zero l h = refl
length-take-lt (suc n) [] h = absurd (omega arith)
length-take-lt (suc n) (c ∷ cs) h = omega (arith, length-take-lt n cs)

module _ {M : Type 0} (codec : Codec M) where
  -- A last line behind the encoded ones counts if it decodes.
  pub read_last :
      (ms : List M) (ls : List Bytes) (tail part : Bytes) (skip : ℕ)
      → Encoded codec ms ls
      → skip ≤ length ms
      → IsLine part
      → length part < max_line_size
      → split_lines tail ≡ part ∷ []
      → read_messages_from codec skip (some (joined codec ls ++ tail))
        ≡ ok (drop skip ms ++ keep_decoded codec (codec.unmarshal part) [])
  unfolding read_messages_from
  read_last ms ls tail part skip enc within line short split =
      let e : skip - 0 ≡ skip = omega arith in
      let past : leb (0 + length ms + 1) skip ≡ false = ground arith in
      rw (split_lines-joined codec ms ls tail enc, split)
        (rw
          (
            any_too_long-Encoded codec ms ls (part ∷ []) enc,
            scan-Encoded codec ms ls (part ∷ []) skip 0 enc,
          )
          (rw (e, drop_cr-IsLine part line, is_empty-IsLine part line) (ground arith)))

  pub read_unended :
      (ms : List M) (ls : List Bytes) (part : Bytes) (skip : ℕ)
      → Encoded codec ms ls
      → skip ≤ length ms
      → IsLine part
      → length part < max_line_size
      → read_messages_from codec skip (some (joined codec ls ++ part))
        ≡ ok (drop skip ms ++ keep_decoded codec (codec.unmarshal part) [])
  read_unended ms ls part skip enc within line short =
      read_last ms ls part part skip enc within line short (split_lines-unended part line)

  -- One line that the scanner cannot hold makes the whole log unreadable.
  pub read_too_long :
      (ms : List M) (ls : List Bytes) (l : Bytes) (skip : ℕ)
      → Encoded codec ms ls
      → IsLine l
      → max_line_size ≤ length l
      → read_messages_from codec skip (some (joined codec ls ++ (l ++ newline ∷ [])))
        ≡ err line_too_long
  unfolding read_messages_from
  read_too_long ms ls l skip enc line long =
      rw (split_lines-joined codec ms ls (l ++ newline ∷ []) enc, split_lines-append l [] line)
        (rw (any_too_long-Encoded codec ms ls (l ∷ []) enc) (ground arith))

pub append-IsLine : (a b : Bytes) → IsLine a → IsLine b → IsLine (a ++ b)
append-IsLine [] b h k = absurd h
append-IsLine (c ∷ []) [] h k = absurd k
append-IsLine (c ∷ []) (d ∷ ds) h k = (h.0, h.1, k)
append-IsLine (c ∷ d ∷ ds) b h k = (h.0, h.1, append-IsLine (d ∷ ds) b h.2 k)

pub split_lines-ended : (l : Bytes) → IsLine l → split_lines (l ++ newline ∷ []) ≡ l ∷ []
unfolding split_lines
split_lines-ended l h = split_lines-append l [] h
