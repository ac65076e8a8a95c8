-- ===== src/Session/Manager/Steps.antt =====
-- What the operations of pkg/session/manager.go do to the conversations, against the contract of
-- pkg/memory/store.go.
use nook_claw.Prelude.{
  ℕ, zero, suc, ◌-◌, ◌≡◌, refl, sym, ap, ◌∙◌, Bool, true, false, Option, none, some, List, [], ◌∷◌,
  length, leb, arith, Bool-cases, Option-cases, inl, inr, if◌then◌else◌,
}
use nook_claw.Prelude.Text.{Text}
use nook_claw.Prelude.Int.{ℤ, pos, negsuc}
use nook_claw.Prelude.Dict.{lookup, lookup-insert_self}
use nook_claw.Memory.View.{
  Conversation, Operation, add, truncate, replace, compaction, summarize, apply, apply_all,
  keep_last,
}
use nook_claw.Session.Manager.{
  messages_of, summary_of, update_found, Session, SessionManager, session_or_new, put, update,
  add_full_message, get_history, get_summary, set_summary, truncated, truncate_history, set_history,
}

module _ {M : Type 0} where
  -- The call that an operation is; Save changes nothing in memory.
  abbrev pub perform : Text → Operation M → ℕ → SessionManager M → SessionManager M
  perform key (add m) now = add_full_message key m now
  perform key (truncate k) now = truncate_history key k now
  perform key (replace ms) now = set_history key ms now
  perform key compaction now = λ sm. sm
  perform key (summarize s) now = set_summary key s now

  -- What GetHistory and GetSummary say.
  abbrev pub view : Text → SessionManager M → Conversation M
  view key sm = record { history = get_history key sm; summary = get_summary key sm }

  abbrev pub is_some : Option (Session M) → Bool
  is_some none = false
  is_some (some s) = true

  abbrev pub has_session : Text → SessionManager M → Bool
  has_session key sm = is_some (lookup key sm.sessions)

  -- Only AddMessage makes a session that is not there.
  abbrev pub creates : Operation M → Bool
  creates (add m) = true
  creates _ = false

  abbrev of_session : Session M → Conversation M
  of_session s = record { history = s.messages; summary = s.summary }

  -- The conversation of what a lookup finds.
  abbrev found : Option (Session M) → Conversation M
  found o = record { history = messages_of o; summary = summary_of o }

  view-found :
      (key : Text) (sm : SessionManager M) (o : Option (Session M))
      → lookup key sm.sessions ≡ o
      → view key sm ≡ found o
  unfolding get_history get_summary
  view-found key sm o e = ap found e

  view-put :
      (key : Text) (s : Session M) (sm : SessionManager M) → view key (put key s sm) ≡ of_session s
  view-put key s sm = view-found key (put key s sm) (some s) (lookup-insert_self key s sm.sessions)

  -- An update of a session.
  view-update :
      (key : Text) (f : Session M → Session M) (sm : SessionManager M) (s : Session M)
      → lookup key sm.sessions ≡ some s
      → view key (update key f sm) ≡ of_session (f s)
  unfolding update
  view-update key f sm s e = ap (λ o. view key (update_found key f sm o)) e ∙ view-put key (f s) sm

  update_missing :
      (key : Text) (f : Session M → Session M) (sm : SessionManager M)
      → lookup key sm.sessions ≡ none
      → view key (update key f sm) ≡ view key sm
  unfolding update
  update_missing key f sm e = ap (λ o. view key (update_found key f sm o)) e

  truncated_lem :
      (k : ℤ) (now : ℕ) (s : Session M)
      → of_session (truncated k now s) ≡ apply (truncate k) (of_session s)
  unfolding keep_last
  truncated_lem (pos zero) now s = refl
  truncated_lem (negsuc k) now s = refl
  truncated_lem (pos (suc k)) now s = elim (Bool-cases (leb (length s.messages) (suc k))) [
    | inl e ↦ let all : length s.messages - suc k ≡ 0 = ground arith in rw (e, all)
    | inr e ↦ rw e
  ]

  add_found :
      (key : Text) (m : M) (now : ℕ) (sm : SessionManager M)
      → view key (add_full_message key m now sm)
        ≡ apply (add m) (of_session (session_or_new key now (lookup key sm.sessions)))
  unfolding add_full_message
  add_found key m now sm = view-put key _ sm

  perform_existing :
      (key : Text) (op : Operation M) (now : ℕ) (sm : SessionManager M) (s : Session M)
      → lookup key sm.sessions ≡ some s
      → view key (perform key op now sm) ≡ apply op (of_session s)
  unfolding set_summary truncate_history set_history
  perform_existing key (add m) now sm s e =
      add_found key m now sm ∙ ap (λ o. apply (add m) (of_session (session_or_new key now o))) e
  perform_existing key (truncate k) now sm s e =
      view-update key (truncated k now) sm s e ∙ truncated_lem k now s
  perform_existing key (replace ms) now sm s e = view-update key _ sm s e
  perform_existing key compaction now sm s e = view-found key sm (some s) e
  perform_existing key (summarize t) now sm s e = view-update key _ sm s e

  pub perform_missing :
      (key : Text) (op : Operation M) (now : ℕ) (sm : SessionManager M)
      → lookup key sm.sessions ≡ none
      → view key (perform key op now sm)
        ≡ (if creates op then apply op (view key sm) else view key sm)
  unfolding set_summary truncate_history set_history
  perform_missing key (add m) now sm e =
      add_found key m now sm
      ∙ ap (λ o. apply (add m) (of_session (session_or_new key now o))) e
      ∙ ap (apply (add m)) (sym (view-found key sm none e))
  perform_missing key (truncate k) now sm e = update_missing key _ sm e
  perform_missing key (replace ms) now sm e = update_missing key _ sm e
  perform_missing key compaction now sm e = refl
  perform_missing key (summarize t) now sm e = update_missing key _ sm e

  -- On a session that is there every operation does what the contract promises; one that is not
  -- there is made by AddMessage, and every other operation on it is ignored.
  pub view-perform :
      (key : Text) (op : Operation M) (now : ℕ) (sm : SessionManager M)
      → view key (perform key op now sm) ≡ (
          if has_session key sm
          then apply op (view key sm)
          else if creates op
          then apply op (view key sm)
          else view key sm)
  view-perform key op now sm = elim (Option-cases (lookup key sm.sessions)) [
    | inl e ↦ rw (ap is_some e) (perform_missing key op now sm e)
    | inr (s, e) ↦
        rw (ap is_some e)
          (perform_existing key op now sm s e ∙ ap (apply op) (sym (view-found key sm (some s) e)))
  ]

  update-has :
      (key : Text) (f : Session M → Session M) (sm : SessionManager M)
      → has_session key sm ≡ true
      → has_session key (update key f sm) ≡ true
  unfolding update
  update-has key f sm h = kept (lookup key sm.sessions) refl
    where
      kept :
          (o : Option (Session M))
          → lookup key sm.sessions ≡ o
          → has_session key (update_found key f sm o) ≡ true
      kept none e = h
      kept (some s) e = ap is_some (lookup-insert_self key (f s) sm.sessions)

  perform-has :
      (key : Text) (op : Operation M) (now : ℕ) (sm : SessionManager M)
      → has_session key sm ≡ true
      → has_session key (perform key op now sm) ≡ true
  unfolding add_full_message set_summary truncate_history set_history
  perform-has key (add m) now sm h = ap is_some (lookup-insert_self key _ sm.sessions)
  perform-has key (truncate k) now sm h = update-has key _ sm h
  perform-has key (replace ms) now sm h = update-has key _ sm h
  perform-has key compaction now sm h = h
  perform-has key (summarize t) now sm h = update-has key _ sm h

  unfoldable pub perform_all : Text → List (Operation M × ℕ) → SessionManager M → SessionManager M
  perform_all key [] sm = sm
  perform_all key ((op, now) ∷ ops) sm = perform_all key ops (perform key op now sm)

  view-perform_all :
      (key : Text) (ops : List (Operation M × ℕ)) (sm : SessionManager M)
      → has_session key sm ≡ true
      → view key (perform_all key ops sm) ≡ apply_all ops (view key sm)
  unfolding perform_all apply_all
  view-perform_all key [] sm h = refl
  view-perform_all key ((op, now) ∷ ops) sm h =
      view-perform_all key ops (perform key op now sm) (perform-has key op now sm h)
      ∙ ap (apply_all ops) (view-perform key op now sm ∙ chosen)
    where
      chosen :
          (if has_session key sm
            then apply op (view key sm)
            else if creates op
            then apply op (view key sm)
            else view key sm)
          ≡ apply op (view key sm)
      chosen = rw h

  -- From a message on, a session holds what the contract promises.
  pub view-started :
      (key : Text) (m : M) (now : ℕ) (ops : List (Operation M × ℕ)) (sm : SessionManager M)
      → lookup key sm.sessions ≡ none
      → view key (perform_all key ((add m, now) ∷ ops) sm)
        ≡ apply_all ops (record { history = m ∷ []; summary = [] })
  unfolding perform_all add_full_message
  view-started key m now ops sm e =
      view-perform_all key ops (add_full_message key m now sm)
        (ap is_some (lookup-insert_self key _ sm.sessions))
      ∙ ap (apply_all ops) (
          add_found key m now sm
          ∙ ap (λ o. apply (add m) (of_session (session_or_new key now o))) e)
