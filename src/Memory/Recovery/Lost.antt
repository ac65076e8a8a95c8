-- ===== src/Memory/Recovery/Lost.antt =====
-- Messages that pkg/memory/jsonl.go accepts behind a part of a line, or as a line that is too
-- long.
use mathlib.Core.List.{append_assoc, append-nil}
use mathlib.Core.Path.{ap₂}
use nook_claw.Prelude.{
  ℕ, suc, ◌≤◌, ◌<◌, ◌≡◌, refl, sym, ap, ◌∙◌, Option, none, some, List, [], ◌∷◌, ◌++◌, length, take,
  arith, subst, drop, take-append_of_le,
}
use nook_claw.Prelude.Text.{Text}
use nook_claw.Memory.Codec.{Bytes, newline, Codec}
use nook_claw.Memory.Disk.{
  Files, torn, ok, err, line_too_long, World, appended, contents, ◌>>=◌, Result, lift,
}
use nook_claw.Memory.Store.{
  max_line_size, keep_decoded, marshalled, add_line, add_msg, get_history, read_messages_from,
}
use nook_claw.Memory.Store.Lines.{EncodedAs, joined}
use nook_claw.Memory.View.{skip_of, Conversation, calm, Represents}
use nook_claw.Memory.Refinement.{skip-meta_or_new}
use nook_claw.Memory.Recovery.Torn.{
  read_last, read_too_long, take-IsLine, append-IsLine, split_lines-ended,
}

module _ {M : Type 0} (codec : Codec M) (key : Text) (f : Files) (c : Conversation M)
    (rep : Represents codec f c) where
  -- The files after an append of the message that stopped after some bytes.
  abbrev pub torn_files : M → ℕ → ℕ → Files
  torn_files m n now =
      (add_msg codec key m now (record { files = f; faults = torn n ∷ [] })).1.files

  -- AddMessage from here on, where the file operations go well.
  abbrev run : Files → ℕ → Option Bytes → Result (Unit {0}) × World
  run g now o = (lift (marshalled codec o) >>= add_line codec key now) (calm codec g)

  torn_files-appended :
      (m : M) (l : Bytes) (n now : ℕ)
      → codec.marshal m ≡ some l
      → n < length l
      → torn_files m n now ≡ appended (take n l) f
  unfolding add_msg add_line
  torn_files-appended m l n now e h =
      ap
        (λ (o : Option Bytes).
          ((lift (marshalled codec o) >>= add_line codec key now)
            (record { files = f; faults = torn n ∷ [] })).1.files)
        e
      ∙ ap (λ (bs : Bytes). appended bs f) (take-append_of_le n l (newline ∷ []) (omega arith))

  -- AddMessage of an encoded line returns, and this is what it leaves.
  run_returns : (g : Files) (now : ℕ) (l : Bytes) → (run g now (some l)).0 ≡ ok tt
  unfolding add_line
  run_returns g now l = refl

  run_jsonl :
      (g : Files) (now : ℕ) (l : Bytes)
      → (run g now (some l)).1.files.jsonl ≡ some (contents g.jsonl ++ (l ++ newline ∷ []))
  unfolding add_line
  run_jsonl g now l = refl

  run_skip : (g : Files) (now : ℕ) (l : Bytes) → skip_of (run g now (some l)).1.files ≡ skip_of g
  unfolding add_line
  run_skip g now l = skip-meta_or_new codec key g

  get_history-read :
      (g : Files) (skip : ℕ) (file : Option Bytes)
      → skip_of g ≡ skip
      → g.jsonl ≡ file
      → (get_history codec key (calm codec g)).0 ≡ read_messages_from codec skip file
  unfolding get_history
  get_history-read g skip file at_skip same =
      ap₂ (read_messages_from codec) (skip-meta_or_new codec key g ∙ at_skip) same

  abbrev Finds : Result (List M) → Result (Unit {0}) × World → Type 0
  Finds h r = (r.0 ≡ ok tt) × ((get_history codec key (calm codec r.1.files)).0 ≡ h)

  -- AddMessage behind bytes that follow the log.
  run-Finds :
      (part l : Bytes) (now : ℕ) (h : Result (List M))
      → read_messages_from codec
          (skip_of f)
          (some (joined codec rep.log.lines ++ ((part ++ l) ++ newline ∷ [])))
        ≡ h
      → Finds h (run (appended part f) now (some l))
  run-Finds part l now h read =
      let g = appended part f in
      let regroup : (contents f.jsonl ++ part) ++ (l ++ newline ∷ [])
          ≡ joined codec rep.log.lines ++ ((part ++ l) ++ newline ∷ []) =
        append_assoc (contents f.jsonl) part (l ++ newline ∷ [])
        ∙ ap₂ ◌++◌ rep.log.stored (sym (append_assoc part l (newline ∷ []))) in
      (
        run_returns g now l,
        get_history-read _ (skip_of f) _ (run_skip g now l) (run_jsonl g now l ∙ ap some regroup)
            ∙ read,
      )

  -- After an append that stopped inside a message, the next AddMessage returns without an error,
  -- and its message is lost: it stands on the line of the part, and where that line does not
  -- decode GetHistory returns the history from before both.
  pub torn_append_loses_next :
      (m next : M) (l l' : Bytes) (n now : ℕ)
      → EncodedAs codec m l
      → EncodedAs codec next l'
      → suc n < length l
      → length (take (suc n) l ++ l') < max_line_size
      → codec.unmarshal (take (suc n) l ++ l') ≡ none
      → let r = add_msg codec key next now (calm codec (torn_files m (suc n) now)) in
        (r.0 ≡ ok tt) × ((get_history codec key (calm codec r.1.files)).0 ≡ ok c.history)
  unfolding add_msg
  torn_append_loses_next m next l l' n now enc enc' h short undecoded =
      let part = take (suc n) l in
      let line =
        append-IsLine part l' (take-IsLine n l (codec.is_line m l enc.0))
          (codec.is_line next l' enc'.0) in
      let read =
        read_last codec rep.logged rep.log.lines ((part ++ l') ++ newline ∷ []) (part ++ l')
          (skip_of f) rep.log.encoded rep.log.within line short
          (split_lines-ended (part ++ l') line) in
      let lost =
        ap (λ (o : Option M). ok (drop (skip_of f) rep.logged ++ keep_decoded codec o [])) undecoded
        ∙ ap ok (append-nil (drop (skip_of f) rep.logged) ∙ sym rep.history) in
      subst (Finds (ok c.history))
        (sym (
          ap₂ (λ (g : Files) (o : Option Bytes). run g now o)
            (torn_files-appended m l (suc n) now enc.0 h) enc'.0))
        (run-Finds part l' now (ok c.history) (read ∙ lost))

  -- AddMessage of a message whose encoding is a line that the scanner cannot hold returns without
  -- an error, and GetHistory fails from then on.
  pub too_long_unreadable :
      (m : M) (l : Bytes) (now : ℕ)
      → codec.marshal m ≡ some l
      → max_line_size ≤ length l
      → let r = add_msg codec key m now (calm codec f) in
        (r.0 ≡ ok tt) × ((get_history codec key (calm codec r.1.files)).0 ≡ err line_too_long)
  unfolding add_msg
  too_long_unreadable m l now e long =
      let line = codec.is_line m l e in
      let read =
        read_too_long codec rep.logged rep.log.lines l (skip_of f) rep.log.encoded line long in
      let stored = ap (λ (bs : Bytes). some (bs ++ (l ++ newline ∷ []))) rep.log.stored in
      subst (Finds (err line_too_long)) (sym (ap (run f now) e)) (
        run_returns f now l,
        get_history-read _ (skip_of f) _ (run_skip f now l) (run_jsonl f now l ∙ stored) ∙ read,
      )
