-- ===== src/Memory/Refinement.antt =====
-- The operations of JSONLStore (pkg/memory/jsonl.go) against the interface of pkg/memory/store.go.
use mathlib.Core.List.{map-append}
use nook_claw.Prelude.{
  ℕ, zero, suc, ◌-◌, ◌≤◌, ◌≡◌, refl, subst, map, length-map, map-drop, sym, ap, ◌∙◌, List, [], ◌∷◌,
  ◌++◌, All, length, length-append, drop, drop-append_of_le, arith, ◌==◌, Bool-cases, inl, inr,
}
use nook_claw.Prelude.Text.{Text}
use nook_claw.Prelude.Int.{ℤ, pos, negsuc}
use nook_claw.Memory.Codec.{Bytes, newline, Codec}
use nook_claw.Memory.Disk.{SessionMeta, Files, no_files, Result, ok, World, Io, contents}
use nook_claw.Memory.Store.{
  meta_or_new, add_msg, add_line, set_summary, truncate_history, set_history, compact, drop_skipped,
  get_history, get_summary, truncated_skip,
}
use nook_claw.Memory.Store.Lines.{Encoded, joined}
use nook_claw.Memory.View.{
  skip_of, summary_of, Conversation, Operation, add, truncate, replace, compaction, summarize,
  keep_last, apply, apply_all, new_conversation, perform, calm, IsMarshalled, IsEncodable,
  Represents, read_messages_from-Encoded, count_lines_from-Encoded, encode_all-Encoded,
  encode_all-again, stored_op, as_stored, Encoded-drop, Encoded-snoc, joined-snoc,
  truncated_skip_lem,
}

module _ {M : Type 0} (codec : Codec M) where
  -- The operation succeeds and leaves files that stand for the conversation.
  pub record Succeeds (r : Result (Unit {0}) × World) (c : Conversation M) : Type 0 where
    pub returns : r.0 ≡ ok tt
    pub represents : Represents codec r.1.files c

  -- Every file operation is still to go well.
  abbrev Did : Io (Unit {0}) → Files → Conversation M → Type 0
  Did op f c = Succeeds (op (calm codec f)) c

  pub represents_by :
      (f : Files) (c : Conversation M) (ms : List M) (ls : List Bytes) (skip : ℕ)
      → Encoded codec ms ls
      → contents f.jsonl ≡ joined codec ls
      → skip_of f ≡ skip
      → skip ≤ length ms
      → c.history ≡ drop skip ms
      → c.summary ≡ summary_of f
      → Represents codec f c
  represents_by f c ms ls skip enc stored at_skip within history summary = record {
    logged = ms;
    log = record { lines = ls; encoded = enc; stored = stored; within = rw at_skip within };
    history = rw at_skip history;
    summary = summary;
  }

  pub skip-meta_or_new : (key : Text) (f : Files) → (meta_or_new codec key f.meta).skip ≡ skip_of f
  skip-meta_or_new key f = ground arith

  pub summary-meta_or_new :
      (key : Text) (f : Files) → (meta_or_new codec key f.meta).summary ≡ summary_of f
  summary-meta_or_new key f = ground arith

  module _ (key : Text) (now : ℕ) (f : Files) (c : Conversation M)
      (rep : Represents codec f c) where
    abbrev skip : ℕ
    skip = skip_of f

    abbrev meta : SessionMeta
    meta = meta_or_new codec key f.meta

    pub kept_summary : c.summary ≡ meta.summary
    kept_summary = rep.summary ∙ sym (summary-meta_or_new key f)

    add-Succeeds :
        (m : M)
        → IsMarshalled codec m
        → Did (add_msg codec key m now) f (apply (stored_op codec (add m)) c)
    unfolding add_msg add_line
    add-Succeeds m (l, enc) = rw enc.0 (record {
      returns = refl;
      represents =
          represents_by _ _ (rep.logged ++ codec.stored m ∷ []) (rep.log.lines ++ l ∷ []) skip
            (Encoded-snoc codec rep.logged rep.log.lines (codec.stored m) l rep.log.encoded
              (m, enc, refl))
            (ap (λ (bs : Bytes). bs ++ (l ++ newline ∷ [])) rep.log.stored
              ∙ sym (joined-snoc codec rep.log.lines l))
            (skip-meta_or_new key f)
            (omega (arith, rep.log.within, length-append rep.logged (codec.stored m ∷ [])))
            (ap (λ (h : List M). h ++ codec.stored m ∷ []) rep.history
              ∙ sym (drop-append_of_le skip rep.logged (codec.stored m ∷ []) rep.log.within))
            kept_summary;
    })

    summarize-Succeeds : (s : Text) → Did (set_summary codec key s now) f (apply (summarize s) c)
    unfolding set_summary
    summarize-Succeeds s = record {
      returns = refl;
      represents =
          represents_by _ _ rep.logged rep.log.lines skip rep.log.encoded rep.log.stored
            (skip-meta_or_new key f) rep.log.within rep.history refl;
    }

    truncate-Succeeds : (k : ℤ) → Did (truncate_history codec key k now) f (apply (truncate k) c)
    unfolding truncate_history
    truncate-Succeeds k =
        let count =
          count_lines_from-Encoded codec rep.logged rep.log.lines f.jsonl rep.log.encoded
            rep.log.stored in
        let (within, kept) = truncated_skip_lem codec k skip rep.logged rep.log.within in
        rw (count) (record {
          returns = refl;
          represents =
              represents_by _ _ rep.logged rep.log.lines
                (truncated_skip codec k (length rep.logged) skip) rep.log.encoded rep.log.stored
                (ap (truncated_skip codec k (length rep.logged)) (skip-meta_or_new key f)) within
                (ap (keep_last k) rep.history ∙ sym kept) kept_summary;
        })

    replace-Succeeds :
        (ms : List M)
        → All (IsMarshalled codec) ms
        → Did (set_history codec key ms now) f (apply (stored_op codec (replace ms)) c)
    unfolding set_history
    replace-Succeeds ms h =
        let (ls, e, enc) = encode_all-Encoded codec ms h in
        rw e (record {
          returns = refl;
          represents =
              represents_by _ _ (map codec.stored ms) ls 0 enc refl refl (omega arith) refl
                kept_summary;
        })

    drop_skipped-Succeeds : Did (drop_skipped codec meta now) f c
    unfolding drop_skipped
    drop_skipped-Succeeds =
        let active = drop skip rep.logged in
        let ls = drop skip rep.log.lines in
        let enc = Encoded-drop codec skip rep.logged rep.log.lines rep.log.encoded in
        let (ls', e, enc') = encode_all-again codec active ls enc in
        rw
          (
            skip-meta_or_new key f,
            read_messages_from-Encoded codec rep.logged rep.log.lines f.jsonl skip rep.log.encoded
                rep.log.stored,
            e,
          )
          (record {
            returns = refl;
            represents =
                represents_by _ _ active ls' 0 enc' refl refl (omega arith) rep.history
                  kept_summary;
          })

    compact-Succeeds : Did (compact codec key now) f (apply compaction c)
    unfolding compact
    compact-Succeeds = elim (Bool-cases (meta.skip == 0)) [
      | inl e ↦ rw e (record { returns = refl; represents = rep })
      | inr e ↦ rw e drop_skipped-Succeeds
    ]

module _ {M : Type 0} (codec : Codec M) where
  -- On a session whose files stand for a conversation, every operation whose messages can be encoded
  -- within the scanner's limit returns without an error, where the file operations go well, and
  -- leaves files that stand for what the interface promises, with each message that it writes as its
  -- JSON keeps it.
  pub perform-Succeeds :
      (key : Text) (op : Operation M) (now : ℕ) (f : Files) (c : Conversation M)
      → IsEncodable codec op
      → Represents codec f c
      → Succeeds codec (perform codec key op now (calm codec f)) (apply (stored_op codec op) c)
  perform-Succeeds key (add m) now f c h rep = add-Succeeds codec key now f c rep m h
  perform-Succeeds key (truncate k) now f c h rep = truncate-Succeeds codec key now f c rep k
  perform-Succeeds key (replace ms) now f c h rep = replace-Succeeds codec key now f c rep ms h
  perform-Succeeds key compaction now f c h rep = compact-Succeeds codec key now f c rep
  perform-Succeeds key (summarize s) now f c h rep = summarize-Succeeds codec key now f c rep s

  -- The files after one operation behind another.
  unfoldable pub perform_all : Text → List (Operation M × ℕ) → Files → Files
  perform_all key [] f = f
  perform_all key ((op, now) ∷ ops) f =
      perform_all key ops (perform codec key op now (calm codec f)).1.files

  -- Nothing that an operation does to a history looks into the messages.
  apply-as_stored :
      (op : Operation M) (c : Conversation M)
      → apply (stored_op codec op) (as_stored codec c) ≡ as_stored codec (apply op c)
  unfolding keep_last
  apply-as_stored (add m) c = rw (map-append codec.stored c.history (m ∷ []))
  apply-as_stored (truncate (pos zero)) c = refl
  apply-as_stored (truncate (pos (suc k))) c = rw (
    length-map c.history codec.stored,
    map-drop codec.stored (length c.history - suc k) c.history,
  )
  apply-as_stored (truncate (negsuc k)) c = refl
  apply-as_stored (replace ms) c = refl
  apply-as_stored compaction c = refl
  apply-as_stored (summarize s) c = refl

  perform_all-Represents :
      (key : Text) (ops : List (Operation M × ℕ)) (f : Files) (c : Conversation M)
      → All (λ o. IsEncodable codec o.0) ops
      → Represents codec f (as_stored codec c)
      → Represents codec (perform_all key ops f) (as_stored codec (apply_all ops c))
  unfolding perform_all apply_all
  perform_all-Represents key [] f c h rep = rep
  perform_all-Represents key ((op, now) ∷ ops) f c h rep =
      let done = (perform-Succeeds key op now f (as_stored codec c) h.0 rep).represents in
      perform_all-Represents key ops _ (apply op c) h.1
        (subst (Represents codec _) (apply-as_stored op c) done)

  pub get_history-Represents :
      (key : Text) (f : Files) (c : Conversation M)
      → Represents codec f c
      → get_history codec key (calm codec f) ≡ (ok c.history, calm codec f)
  unfolding get_history
  get_history-Represents key f c rep =
      rw
        (
          skip-meta_or_new codec key f,
          read_messages_from-Encoded codec rep.logged rep.log.lines f.jsonl (skip_of f)
              rep.log.encoded rep.log.stored,
        )
        (rw rep.history)

  get_summary-Represents :
      (key : Text) (f : Files) (c : Conversation M)
      → Represents codec f c
      → get_summary codec key (calm codec f) ≡ (ok c.summary, calm codec f)
  unfolding get_summary
  get_summary-Represents key f c rep = rw (rep.summary, ← summary-meta_or_new codec key f)

  pub no_files-Represents : Represents codec no_files new_conversation
  no_files-Represents = record {
    logged = [];
    log = record { lines = []; encoded = tt; stored = refl; within = omega arith };
    history = refl;
    summary = refl;
  }

  -- After any sequence of operations on a new session, whose messages can be encoded within the
  -- scanner's limit, and where the file operations go well, GetHistory returns the history that the
  -- interface promises, each message as its JSON keeps it, GetSummary returns the summary that it
  -- promises, and neither changes a file.
  pub read_back :
      (key : Text) (ops : List (Operation M × ℕ))
      → All (λ o. IsEncodable codec o.0) ops
      → let f = perform_all key ops no_files in
        let c = apply_all ops new_conversation in
        (get_history codec key (calm codec f) ≡ (ok (map codec.stored c.history), calm codec f))
        × (get_summary codec key (calm codec f) ≡ (ok c.summary, calm codec f))
  read_back key ops h =
      let rep = perform_all-Represents key ops no_files new_conversation h no_files-Represents in
      (get_history-Represents key _ _ rep, get_summary-Represents key _ _ rep)
