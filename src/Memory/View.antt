-- ===== src/Memory/View.antt =====
-- What the files of a session stand for: the messages in the log behind the skip, and the summary.
-- The abstract store of pkg/memory/store.go, and the operations as one type.
use mathlib.Core.List.{append-nil, append_assoc}
use nook_claw.Prelude.{
  ℕ, zero, suc, ◌+◌, ◌-◌, ◌≤◌, ◌≡◌, refl, sym, ap, ◌∙◌, Option, none, some, List, [], ◌∷◌, ◌++◌,
  All, map, subst, length, length-drop, drop, drop-nil, drop-drop, drop-eq-nil_of_le, arith, ltb,
  Bool-cases, inl, inr,
}
use nook_claw.Prelude.Text.{Text}
use nook_claw.Prelude.Int.{ℤ, pos, negsuc}
use nook_claw.Memory.Codec.{Bytes, newline, Codec}
use nook_claw.Memory.Disk.{Files, ok, World, Io, contents}
use nook_claw.Memory.Store.{
  read_messages_from, count_lines_from, encode_all, scan, truncated_skip, add_msg, set_summary,
  truncate_history, set_history, compact,
}
use nook_claw.Memory.Store.Lines.{
  EncodedAs, DecodesTo, Encoded, joined, split_lines-joined, any_too_long-Encoded,
  count_nonempty-Encoded, scan-Encoded,
}

-- The metadata of a session without a file: the zero value.
abbrev pub skip_of : Files → ℕ
skip_of f = elim f.meta [ none ↦ 0 | some meta ↦ meta.skip ]

abbrev pub summary_of : Files → Text
summary_of f = elim f.meta [ none ↦ [] | some meta ↦ meta.summary ]

pub record Conversation (M : Type 0) : Type 0 where
  pub history : List M
  pub summary : Text

-- A call of the store that changes a session.
pub data Operation (M : Type 0) : Type 0 where
  add : M → Operation M
  truncate : ℤ → Operation M
  replace : List M → Operation M
  compaction : Operation M
  summarize : Text → Operation M

-- The last messages: all are dropped unless some are to be kept.
unfoldable pub keep_last {ℓ} : {A : Type ℓ} → ℤ → List A → List A
keep_last (pos zero) xs = []
keep_last (pos (suc k)) xs = drop (length xs - suc k) xs
keep_last (negsuc k) xs = []

-- What the interface promises of an operation.
abbrev pub apply : {M : Type 0} → Operation M → Conversation M → Conversation M
apply (add m) c = record c { history = c.history ++ m ∷ [] }
apply (truncate k) c = record c { history = keep_last k c.history }
apply (replace ms) c = record c { history = ms }
apply compaction c = c
apply (summarize s) c = record c { summary = s }

unfoldable pub apply_all : {M : Type 0} → List (Operation M × ℕ) → Conversation M → Conversation M
apply_all [] c = c
apply_all ((op, now) ∷ ops) c = apply_all ops (apply op c)

abbrev pub new_conversation : {M : Type 0} → Conversation M
new_conversation = record { history = []; summary = [] }

module _ {M : Type 0} (codec : Codec M) where
  abbrev pub perform : Text → Operation M → ℕ → Io (Unit {0})
  perform key (add m) now = add_msg codec key m now
  perform key (truncate k) now = truncate_history codec key k now
  perform key (replace ms) now = set_history codec key ms now
  perform key compaction now = compact codec key now
  perform key (summarize s) now = set_summary codec key s now

  -- The operation on what the JSON of its messages stands for.
  abbrev pub stored_op : Operation M → Operation M
  stored_op (add m) = add (codec.stored m)
  stored_op (replace ms) = replace (map codec.stored ms)
  stored_op op = op

  -- The conversation with what the JSON of its messages stands for.
  abbrev pub as_stored : Conversation M → Conversation M
  as_stored c = record c { history = map codec.stored c.history }

  -- Every file operation goes well.
  abbrev pub calm : Files → World
  calm f = record { files = f; faults = [] }

  abbrev pub IsMarshalled : M → Type 0
  IsMarshalled m = (l : Bytes) × EncodedAs codec m l

  -- The messages that the operation writes can be encoded, in lines that the scanner can hold.
  abbrev pub IsEncodable : Operation M → Type 0
  IsEncodable (add m) = IsMarshalled m
  IsEncodable (replace ms) = All IsMarshalled ms
  IsEncodable _ = Unit

  -- The log holds the messages, a line each, and the skip does not go past them.
  pub record IsLog (f : Files) (ms : List M) : Type 0 where
    pub lines : List Bytes
    pub encoded : Encoded codec ms lines
    pub stored : contents f.jsonl ≡ joined codec lines
    pub within : skip_of f ≤ length ms

  -- The files stand for the conversation.
  pub record Represents (f : Files) (c : Conversation M) : Type 0 where
    pub logged : List M
    pub log : IsLog f logged
    pub history : c.history ≡ drop (skip_of f) logged
    pub summary : c.summary ≡ summary_of f

  Encoded-nil :
      (ms : List M) (ls : List Bytes) → Encoded codec ms ls → joined codec ls ≡ [] → ms ≡ []
  Encoded-nil [] ls h e = refl
  Encoded-nil (m ∷ ms) [] h e = absurd h
  Encoded-nil (m ∷ ms) ([] ∷ ls) h e = cc
  Encoded-nil (m ∷ ms) ((c ∷ cs) ∷ ls) h e = cc

  pub read_messages_from-Encoded :
      (ms : List M) (ls : List Bytes) (file : Option Bytes) (skip : ℕ)
      → Encoded codec ms ls
      → contents file ≡ joined codec ls
      → read_messages_from codec skip file ≡ ok (drop skip ms)
  unfolding read_messages_from
  read_messages_from-Encoded ms ls none skip h e = rw (Encoded-nil ms ls h (sym e), drop-nil skip)
  read_messages_from-Encoded ms ls (some bs) skip h e =
      rw (e, ← append-nil (joined codec ls), split_lines-joined codec ms ls [] h)
        (rw (any_too_long-Encoded codec ms ls [] h, scan-Encoded codec ms ls [] skip 0 h, scan)
          (let e : skip - 0 ≡ skip = omega arith in rw e (ap ok (append-nil (drop skip ms)))))

  pub count_lines_from-Encoded :
      (ms : List M) (ls : List Bytes) (file : Option Bytes)
      → Encoded codec ms ls
      → contents file ≡ joined codec ls
      → count_lines_from codec file ≡ ok (length ms)
  unfolding count_lines_from
  count_lines_from-Encoded ms ls none h e = rw (Encoded-nil ms ls h (sym e))
  count_lines_from-Encoded ms ls (some bs) h e =
      rw (e, ← append-nil (joined codec ls), split_lines-joined codec ms ls [] h)
        (rw (any_too_long-Encoded codec ms ls [] h, count_nonempty-Encoded codec ms ls [] h)
          (ap ok (omega arith)))

  -- Messages that can be encoded are written as lines that decode to what their JSON stands for.
  pub encode_all-Encoded :
      (ms : List M)
      → All IsMarshalled ms
      → (ls : List Bytes) × (encode_all codec ms ≡ some (joined codec ls))
        × Encoded codec (map codec.stored ms) ls
  unfolding encode_all
  encode_all-Encoded [] h = ([], refl, tt)
  encode_all-Encoded (m ∷ ms) h =
      let ((l, enc), more) = h in
      let (ls, e, encs) = encode_all-Encoded ms more in
      (l ∷ ls, ground (arith, enc.0, e), ((m, enc, refl), encs))

  -- What was read from a log can be encoded again and loses nothing by it.
  pub Encoded-again :
      (ms : List M) (ls : List Bytes)
      → Encoded codec ms ls
      → All IsMarshalled ms × (map codec.stored ms ≡ ms)
  Encoded-again [] [] h = (tt, refl)
  Encoded-again [] (l ∷ ls) h = absurd h
  Encoded-again (m ∷ ms) [] h = absurd h
  Encoded-again (m ∷ ms) (l ∷ ls) ((from, (e, short), kept), h) =
      let (l', e', shorter) = codec.again from l e in
      let (alls, same) = Encoded-again ms ls h in
      let m_again = ap codec.stored (sym kept) ∙ codec.stored_again from ∙ kept in
      (
        ((l', (ap codec.marshal (sym kept) ∙ e', omega arith)), alls),
        ap (λ (x : M). x ∷ map codec.stored ms) m_again ∙ ap (◌∷◌ m) same,
      )

  -- The active messages of a log are written again as lines that decode to the same.
  pub encode_all-again :
      (ms : List M) (ls : List Bytes)
      → Encoded codec ms ls
      → (ls' : List Bytes) × (encode_all codec ms ≡ some (joined codec ls')) × Encoded codec ms ls'
  encode_all-again ms ls h =
      let (alls, same) = Encoded-again ms ls h in
      let (ls', e, enc) = encode_all-Encoded ms alls in
      (ls', e, subst (λ (x : List M). Encoded codec x ls') same enc)

  pub Encoded-drop :
      (n : ℕ) (ms : List M) (ls : List Bytes)
      → Encoded codec ms ls
      → Encoded codec (drop n ms) (drop n ls)
  Encoded-drop zero ms ls h = h
  Encoded-drop (suc n) [] [] h = tt
  Encoded-drop (suc n) [] (l ∷ ls) h = absurd h
  Encoded-drop (suc n) (m ∷ ms) [] h = absurd h
  Encoded-drop (suc n) (m ∷ ms) (l ∷ ls) h = Encoded-drop n ms ls h.1

  pub Encoded-snoc :
      (ms : List M) (ls : List Bytes) (m : M) (l : Bytes)
      → Encoded codec ms ls
      → DecodesTo codec m l
      → Encoded codec (ms ++ m ∷ []) (ls ++ l ∷ [])
  Encoded-snoc [] [] m l h k = (k, tt)
  Encoded-snoc [] (l' ∷ ls) m l h k = absurd h
  Encoded-snoc (m' ∷ ms) [] m l h k = absurd h
  Encoded-snoc (m' ∷ ms) (l' ∷ ls) m l h k = (h.0, Encoded-snoc ms ls m l h.1 k)

  pub joined-snoc :
      (ls : List Bytes) (l : Bytes)
      → joined codec (ls ++ l ∷ []) ≡ joined codec ls ++ (l ++ newline ∷ [])
  joined-snoc [] l = refl
  joined-snoc (l' ∷ ls) l =
      ap (λ (bs : Bytes). l' ++ newline ∷ bs) (joined-snoc ls l)
      ∙ sym (append_assoc l' (newline ∷ joined codec ls) (l ++ newline ∷ []))

  -- The new skip keeps the messages that are to be kept, and stays within the log.
  pub truncated_skip_lem :
      (k : ℤ) (skip : ℕ) (ms : List M)
      → skip ≤ length ms
      → (truncated_skip codec k (length ms) skip ≤ length ms)
        × (drop (truncated_skip codec k (length ms) skip) ms ≡ keep_last k (drop skip ms))
  unfolding truncated_skip keep_last
  truncated_skip_lem (pos zero) skip ms h =
      (omega arith, drop-eq-nil_of_le (length ms) ms (omega arith))
  truncated_skip_lem (negsuc k) skip ms h =
      (omega arith, drop-eq-nil_of_le (length ms) ms (omega arith))
  truncated_skip_lem (pos (suc k)) skip ms h =
      let len = length-drop skip ms in
      let kept = drop-drop (length (drop skip ms) - suc k) skip ms in
      elim (Bool-cases (ltb (suc k) (length ms - skip))) [
        | inl e ↦
            let same : length ms - suc k ≡ skip + (length (drop skip ms) - suc k) = ground arith in
            rw e (omega arith, ap (λ (n : ℕ). drop n ms) same ∙ sym kept)
        | inr e ↦
            let same : skip ≡ skip + (length (drop skip ms) - suc k) = ground arith in
            rw e (h, ap (λ (n : ℕ). drop n ms) same ∙ sym kept)
      ]
