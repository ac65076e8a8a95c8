-- ===== src/Memory/Recovery.antt =====
-- Failures and crashes of the file operations in pkg/memory/jsonl.go.
pub mod Faults
pub mod Torn
pub mod Lost
use mathlib.Core.List.{append_assoc, append-nil}
use nook_claw.Prelude.{
  ℕ, zero, suc, ◌+◌, ◌-◌, ◌≤◌, ◌<◌, ◌≡◌, refl, sym, ap, ◌∙◌, ◌⊎◌, inl, inr, Bool, true, false,
  Option, none, some, List, [], ◌∷◌, ◌++◌, length, drop, drop-append_of_le, subst, map, All, arith,
  take, ◌==◌, Bool-cases, if◌then◌else◌,
}
use nook_claw.Prelude.Text.{Text}
use nook_claw.Prelude.Int.{ℤ}
use nook_claw.Memory.Codec.{Bytes, newline, Codec, IsLine}
use nook_claw.Memory.Disk.{
  SessionMeta, Files, Fault, fine, failed, torn, not_synced, MemoryError, io_error, marshal_error,
  line_too_long, Result, ok, err, World, Io, ◌>>=◌, ◌>>◌, pure, lift, read_file, write_file_atomic,
  append_file, contents, appended, next_fault, later_faults, reading, replacing, appending,
}
use nook_claw.Memory.Store.{
  max_line_size, keep_decoded, meta_or_new, marshalled, add_msg, add_line, set_summary,
  truncate_history, set_history, compact, drop_skipped, get_history, read_messages,
  read_messages_from, read_meta, write_meta, count_lines, count_lines_from, rewrite_jsonl,
  encode_all, truncated_skip,
}
use nook_claw.Memory.Store.Lines.{EncodedAs, Encoded, joined}
use nook_claw.Memory.Refinement.{skip-meta_or_new, get_history-Represents}
use Faults.{
  Survives, survive-append, survive-lift, survive-pure, survive-read, survive-read_lift,
  survive-write, survive-write_last,
}
use Torn.{read_unended, take-line, take-IsLine, length-take-lt}
use nook_claw.Memory.View.{
  skip_of, keep_last, Conversation, Operation, add, truncate, replace, compaction, summarize, apply,
  perform, calm, IsEncodable, IsMarshalled, Represents, read_messages_from-Encoded,
  count_lines_from-Encoded, encode_all-Encoded, encode_all-again, stored_op, Encoded-drop,
  Encoded-snoc, joined-snoc, truncated_skip_lem,
}

-- SetHistory and Compact reset the skip before they rewrite the log.
abbrev pub resets_skip : {M : Type 0} → Operation M → Bool
resets_skip (replace ms) = true
resets_skip compaction = true
resets_skip _ = false

module _ {M : Type 0} (codec : Codec M) (key : Text) where
  -- GetHistory returns these messages.
  abbrev pub Reads : Files → List M → Type 0
  Reads f h = get_history codec key (calm codec f) ≡ (ok h, calm codec f)

  -- What GetHistory returns after an operation that met failures: the new history, with the written
  -- messages as their JSON keeps them, if it returned
  -- without an error; otherwise the old one, the new one, or, where the operation resets the skip,
  -- all the messages of the log, the old history with truncated messages before it.
  abbrev pub Recovered : Operation M → Conversation M → List M → Result (Unit {0}) → Files → Type 0
  Recovered op c logged (ok a) f = Reads f (apply (stored_op codec op) c).history
  Recovered op c logged (err e) f =
      Reads f c.history
      ⊎ Reads f (apply (stored_op codec op) c).history
      ⊎ ((resets_skip op ≡ true) × Reads f logged)

  Reads-by :
      (f : Files) (h : List M) (skip : ℕ)
      → skip_of f ≡ skip
      → read_messages_from codec skip f.jsonl ≡ ok h
      → Reads f h
  unfolding get_history
  Reads-by f h skip at_skip read = rw (skip-meta_or_new codec key f, at_skip, read)

  module _ (now : ℕ) (f : Files) (c : Conversation M) (rep : Represents codec f c) where
    old : Reads f c.history
    old = get_history-Represents codec key f c rep

    -- A file write behind the log: the metadata, or the log's replacement.
    Reads-log :
        (g : Files) (ms : List M) (ls : List Bytes) (skip : ℕ) (h : List M)
        → Encoded codec ms ls
        → contents g.jsonl ≡ joined codec ls
        → skip_of g ≡ skip
        → h ≡ drop skip ms
        → Reads g h
    Reads-log g ms ls skip h enc stored at_skip e =
        Reads-by g h skip at_skip
          (read_messages_from-Encoded codec ms ls g.jsonl skip enc stored ∙ ap ok (sym e))

    log_added :
        (g : Files) (m : M) (l : Bytes)
        → EncodedAs codec m l
        → contents g.jsonl ≡ contents f.jsonl ++ (l ++ newline ∷ [])
        → skip_of g ≡ skip_of f
        → Reads g (c.history ++ codec.stored m ∷ [])
    log_added g m l enc stored at_skip =
        Reads-log g (rep.logged ++ codec.stored m ∷ []) (rep.log.lines ++ l ∷ []) (skip_of f) _
          (Encoded-snoc codec rep.logged rep.log.lines (codec.stored m) l rep.log.encoded
            (m, enc, refl))
          (stored
            ∙ ap (λ (bs : Bytes). bs ++ (l ++ newline ∷ [])) rep.log.stored
            ∙ sym (joined-snoc codec rep.log.lines l))
          at_skip
          (ap (λ (h : List M). h ++ codec.stored m ∷ []) rep.history
            ∙ sym (drop-append_of_le (skip_of f) rep.logged (codec.stored m ∷ []) rep.log.within))

    -- A last line without its line feed.
    unended_read :
        (part : Bytes)
        → IsLine part
        → length part < max_line_size
        → Reads (appended part f) (c.history ++ keep_decoded codec (codec.unmarshal part) [])
    unended_read part line short = Reads-by (appended part f) _ (skip_of f) refl (
        rw rep.log.stored (
          read_unended codec rep.logged rep.log.lines part (skip_of f) rep.log.encoded
            rep.log.within line short
          ∙ ap (λ (h : List M). ok (h ++ keep_decoded codec (codec.unmarshal part) []))
              (sym rep.history)))

    partial_read :
        (m : M) (l : Bytes) (n : ℕ)
        → EncodedAs codec m l
        → n < length l
        → Reads (appended (take n l) f) c.history
    partial_read m l zero enc h =
        Reads-log (appended [] f) rep.logged rep.log.lines (skip_of f) _ rep.log.encoded
          (append-nil (contents f.jsonl) ∙ rep.log.stored) refl rep.history
    partial_read m l (suc n) enc h =
        let line = take-IsLine n l (codec.is_line m l enc.0) in
        let short = length-take-lt (suc n) l h in
        let none_decoded = codec.partial m l (suc n) enc.0 h in
        let read = unended_read (take (suc n) l) line (omega (arith, enc.1)) in
        subst (Reads (appended (take (suc n) l) f))
          (ap (λ (o : Option M). c.history ++ keep_decoded codec o []) none_decoded
            ∙ append-nil c.history)
          read

    torn_read :
        (m : M) (l : Bytes) (n : ℕ)
        → EncodedAs codec m l
        → Recovered (add m) c rep.logged (err io_error) (appended (take n (l ++ newline ∷ [])) f)
    torn_read m l n enc = elim (take-line n l) [
      | inl (lt, e) ↦ rw e (inl (partial_read m l n enc lt))
      | inr (inl (eq, e)) ↦ rw e (
          inr (
            inl (
              subst (Reads (appended l f))
                (ap (λ (o : Option M). c.history ++ keep_decoded codec o [])
                  (codec.round_trip m l enc.0))
                (unended_read l (codec.is_line m l enc.0) enc.1))))
      | inr (inr e) ↦ rw e (inr (inl (log_added _ m l enc refl refl)))
    ]

    add-Survives :
        (m : M)
        → IsMarshalled codec m
        → Survives (Recovered (add m) c rep.logged) f (add_msg codec key m now)
    unfolding add_msg add_line read_meta write_meta
    add-Survives m (l, enc) =
        let bs = l ++ newline ∷ [] in
        let new = log_added (appended bs f) m l enc refl refl in
        rw enc.0 (
          survive-append bs _ (inl old) (λ n. torn_read m l n enc) (inr (inl new))
            (survive-read _ _ (inr (inl new)) (
              survive-write_last _ (inr (inl new))
                (log_added _ m l enc refl (skip-meta_or_new codec key f)))))

    summarize-Survives :
        (s : Text) → Survives (Recovered (summarize s) c rep.logged) f (set_summary codec key s now)
    unfolding set_summary read_meta write_meta
    summarize-Survives s = survive-read _ _ (inl old) (
        survive-write_last _ (inl old) (
          Reads-log _ rep.logged rep.log.lines (skip_of f) _ rep.log.encoded rep.log.stored
            (skip-meta_or_new codec key f) rep.history))

    truncate-Survives :
        (k : ℤ)
        → Survives (Recovered (truncate k) c rep.logged) f (truncate_history codec key k now)
    unfolding truncate_history read_meta write_meta count_lines
    truncate-Survives k =
        let count =
          count_lines_from-Encoded codec rep.logged rep.log.lines f.jsonl rep.log.encoded
            rep.log.stored in
        let kept = truncated_skip_lem codec k (skip_of f) rep.logged rep.log.within in
        survive-read _ _ (inl old) (
          survive-read_lift _ (count_lines_from codec) _ (length rep.logged) count (inl old) (
            survive-write_last _ (inl old) (
              Reads-log _ rep.logged rep.log.lines
                (truncated_skip codec k (length rep.logged) (skip_of f)) _ rep.log.encoded
                rep.log.stored
                (ap (truncated_skip codec k (length rep.logged)) (skip-meta_or_new codec key f))
                (ap (keep_last k) rep.history ∙ sym kept.1))))

    -- The log is whole, and read from its first line.
    all_read : (g : Files) → g.jsonl ≡ f.jsonl → skip_of g ≡ 0 → Reads g rep.logged
    all_read g same at_skip =
        Reads-log g rep.logged rep.log.lines 0 _ rep.log.encoded (ap contents same ∙ rep.log.stored)
          at_skip refl

    rewritten_read :
        (g : Files) (ms : List M) (ls : List Bytes)
        → Encoded codec ms ls
        → g.jsonl ≡ some (joined codec ls)
        → skip_of g ≡ 0
        → Reads g ms
    rewritten_read g ms ls enc same at_skip =
        Reads-log g ms ls 0 _ enc (ap contents same) at_skip refl

    replace-Survives :
        (ms : List M)
        → All (IsMarshalled codec) ms
        → Survives (Recovered (replace ms) c rep.logged) f (set_history codec key ms now)
    unfolding set_history read_meta write_meta rewrite_jsonl
    replace-Survives ms h =
        let (ls, e, enc) = encode_all-Encoded codec ms h in
        let reset = all_read _ refl refl in
        rw e (
          survive-read _ _ (inl old) (
            survive-write _ _ (inl old) (
              survive-write_last _ (inr (inr (refl, reset)))
                (rewritten_read _ (map codec.stored ms) ls enc refl refl))))

    drop_skipped-Survives :
        Survives
          (Recovered compaction c rep.logged)
          f
          (drop_skipped codec (meta_or_new codec key f.meta) now)
    unfolding drop_skipped read_messages write_meta rewrite_jsonl
    drop_skipped-Survives =
        let skip = skip_of f in
        let active = drop skip rep.logged in
        let enc = Encoded-drop codec skip rep.logged rep.log.lines rep.log.encoded in
        let (ls', e, enc') = encode_all-again codec active (drop skip rep.log.lines) enc in
        let reset = all_read _ refl refl in
        let read =
          read_messages_from-Encoded codec rep.logged rep.log.lines f.jsonl skip rep.log.encoded
            rep.log.stored in
        let kept = rewritten_read _ active ls' enc' refl refl in
        survive-read_lift _ (read_messages_from codec (meta_or_new codec key f.meta).skip) _ active
          (rw (skip-meta_or_new codec key f) read) (inl old)
          (survive-write _ _ (inl old) (
            rw e (
              survive-write_last _ (inr (inr (refl, reset)))
                (subst (Reads _) (sym rep.history) kept))))

    compact-Survives : Survives (Recovered compaction c rep.logged) f (compact codec key now)
    unfolding compact read_meta
    compact-Survives =
        survive-read _ _ (inl old)
          (compacted (Bool-cases ((meta_or_new codec key f.meta).skip == 0)))
      where
        compacted :
            (((meta_or_new codec key f.meta).skip == 0) ≡ true)
              ⊎ (((meta_or_new codec key f.meta).skip == 0) ≡ false)
            → Survives (Recovered compaction c rep.logged) f (
                if (meta_or_new codec key f.meta).skip == 0
                then pure tt
                else drop_skipped codec (meta_or_new codec key f.meta) now)
        compacted (inl e) = rw e (survive-pure old)
        compacted (inr e) = rw e drop_skipped-Survives

  -- The files stand for a conversation, and the messages that the operation writes can be encoded
  -- within the scanner's limit. Then, whatever file operation of it fails, and wherever a crash stops
  -- it, the next GetHistory succeeds and returns the old history, the new one, with each written
  -- message as its JSON keeps it, or, for SetHistory and Compact, every message of the log; the new
  -- one, if the operation returned without an error.
  pub perform-Survives :
      (op : Operation M) (now : ℕ) (f : Files) (c : Conversation M)
      → IsEncodable codec op
      → (rep : Represents codec f c) → (faults : List Fault)
      → let r = perform codec key op now (record { files = f; faults = faults }) in
        Recovered op c rep.logged r.0 r.1.files
  perform-Survives (add m) now f c h rep = (add-Survives now f c rep m h).at
  perform-Survives (truncate k) now f c h rep = (truncate-Survives now f c rep k).at
  perform-Survives (replace ms) now f c h rep = (replace-Survives now f c rep ms h).at
  perform-Survives compaction now f c h rep = (compact-Survives now f c rep).at
  perform-Survives (summarize s) now f c h rep = (summarize-Survives now f c rep s).at
