-- ===== src/Memory/Store/Lines.antt =====
-- Reading back what pkg/memory/jsonl.go has appended: encoded messages, a line each.
use mathlib.Core.List.{append_assoc}
use nook_claw.Prelude.{
  ℕ, suc, ◌+◌, ◌-◌, ◌<◌, ◌≡◌, refl, ap, ◌∙◌, false, some, List, [], ◌∷◌, ◌++◌, length, drop,
  drop-nil, drop-sub_lt, drop-sub_ge, arith,
}
use nook_claw.Prelude.Text.{is_empty}
use nook_claw.Memory.Codec.{Bytes, newline, IsLine, Codec}
use nook_claw.Memory.Store.{max_line_size, split_lines, drop_cr, any_too_long, scan, count_nonempty}

pub split_lines-append :
    (l rest : Bytes) → IsLine l → split_lines (l ++ newline ∷ rest) ≡ l ∷ split_lines rest
unfolding split_lines
split_lines-append [] rest h = absurd h
split_lines-append (c ∷ []) rest h = ground arith
split_lines-append (c ∷ d ∷ ds) rest h = ground (arith, split_lines-append (d ∷ ds) rest h.2)

pub drop_cr-IsLine : (l : Bytes) → IsLine l → drop_cr l ≡ l
unfolding drop_cr
drop_cr-IsLine [] h = absurd h
drop_cr-IsLine (c ∷ []) h = ground arith
drop_cr-IsLine (c ∷ d ∷ ds) h = ap (◌∷◌ c) (drop_cr-IsLine (d ∷ ds) h.2)

pub is_empty-IsLine : (l : Bytes) → IsLine l → is_empty l ≡ false
unfolding is_empty
is_empty-IsLine [] h = absurd h
is_empty-IsLine (c ∷ cs) h = refl

module _ {M : Type 0} (codec : Codec M) where
  -- The line is the encoding of the message, and the scanner's buffer holds it.
  abbrev pub EncodedAs : M → Bytes → Type 0
  EncodedAs m l = (codec.marshal m ≡ some l) × (length l < max_line_size)

  -- The line decodes to the message: it is the encoding of a message whose JSON stands for this one.
  abbrev pub DecodesTo : M → Bytes → Type 0
  DecodesTo m l = (from : M) × EncodedAs from l × (codec.stored from ≡ m)

  abbrev pub Encoded : List M → List Bytes → Type 0
  Encoded [] [] = Unit
  Encoded (m ∷ ms) (l ∷ ls) = DecodesTo m l × Encoded ms ls
  Encoded _ _ = ⊥

  -- The bytes are the encoded lines, each with its line feed.
  abbrev pub joined : List Bytes → Bytes
  joined [] = []
  joined (l ∷ ls) = l ++ newline ∷ joined ls

  pub split_lines-joined :
      (ms : List M) (ls : List Bytes) (tail : Bytes)
      → Encoded ms ls
      → split_lines (joined ls ++ tail) ≡ ls ++ split_lines tail
  split_lines-joined [] [] tail h = refl
  split_lines-joined [] (l ∷ ls) tail h = absurd h
  split_lines-joined (m ∷ ms) [] tail h = absurd h
  split_lines-joined (m ∷ ms) (l ∷ ls) tail ((from, (e, short), kept), h) =
      ap split_lines (append_assoc l (newline ∷ joined ls) tail)
      ∙ split_lines-append l (joined ls ++ tail) (codec.is_line from l e)
      ∙ ap (◌∷◌ l) (split_lines-joined ms ls tail h)

  pub any_too_long-Encoded :
      (ms : List M) (ls more : List Bytes)
      → Encoded ms ls
      → any_too_long (ls ++ more) ≡ any_too_long more
  unfolding any_too_long
  any_too_long-Encoded [] [] more h = refl
  any_too_long-Encoded [] (l ∷ ls) more h = absurd h
  any_too_long-Encoded (m ∷ ms) [] more h = absurd h
  any_too_long-Encoded (m ∷ ms) (l ∷ ls) more ((from, (e, short), kept), h) =
      ground (arith, any_too_long-Encoded ms ls more h)

  pub count_nonempty-Encoded :
      (ms : List M) (ls more : List Bytes)
      → Encoded ms ls
      → count_nonempty codec (ls ++ more) ≡ length ms + count_nonempty codec more
  unfolding count_nonempty
  count_nonempty-Encoded [] [] more h = omega arith
  count_nonempty-Encoded [] (l ∷ ls) more h = absurd h
  count_nonempty-Encoded (m ∷ ms) [] more h = absurd h
  count_nonempty-Encoded (m ∷ ms) (l ∷ ls) more ((from, (e, short), kept), h) =
      let line = codec.is_line from l e in
      rw (drop_cr-IsLine l line, is_empty-IsLine l line)
        (omega (arith, count_nonempty-Encoded ms ls more h))

  -- Behind `n` lines, the lines up to the skip are passed over and the others decoded.
  pub scan-Encoded :
      (ms : List M) (ls more : List Bytes) (skip n : ℕ)
      → Encoded ms ls
      → scan codec skip n (ls ++ more) ≡ drop (skip - n) ms ++ scan codec skip (n + length ms) more
  unfolding scan
  scan-Encoded [] [] more skip n h = let e : n + 0 ≡ n = omega arith in rw (e, drop-nil (skip - n))
  scan-Encoded [] (l ∷ ls) more skip n h = absurd h
  scan-Encoded (m ∷ ms) [] more skip n h = absurd h
  scan-Encoded (m ∷ ms) (l ∷ ls) more skip n ((from, (e, short), kept), h) =
      let line = codec.is_line from l e in
      let ih = scan-Encoded ms ls more skip (n + 1) h in
      let assoc : n + suc (length ms) ≡ n + 1 + length ms = omega arith in
      rw (drop_cr-IsLine l line, is_empty-IsLine l line, codec.round_trip from l e, kept)
        (ground (
          arith,
          ih,
          assoc,
          drop-sub_lt skip n m ms,
          drop-sub_ge skip n (m ∷ ms),
          drop-sub_ge skip (n + 1) ms,
        ))
