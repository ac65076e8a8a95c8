-- ===== src/Session/Backend/Agreement.antt =====
-- The two backends of pkg/session against each other.
use mathlib.Core.Path.{ap₂}
use nook_claw.Prelude.{ℕ, ◌≡◌, refl, sym, ap, ◌∙◌, none, List, [], ◌∷◌, All, map}
use nook_claw.Prelude.Text.{Text}
use nook_claw.Prelude.Dict.{lookup}
use nook_claw.Memory.Codec.{Codec}
use nook_claw.Memory.Disk.{Files, no_files, World, Result}
use nook_claw.Memory.View.{
  Conversation, Operation, add, truncate, replace, compaction, summarize, apply, apply_all,
  new_conversation, calm, IsMarshalled, IsEncodable, as_stored,
}
use nook_claw.Memory.View
use nook_claw.Memory.Refinement.{read_back}
use nook_claw.Memory.Refinement
use nook_claw.Session.Manager.{SessionManager}
use nook_claw.Session.Manager
use nook_claw.Session.Manager.Steps.{view, view-started, view-perform, is_some}
use nook_claw.Session.Manager.Steps
use nook_claw.Session.Backend.{
  or_default, add_full_message, get_history, get_summary, set_summary, set_history,
  truncate_history, save,
}

module _ {M : Type 0} (codec : Codec M) where
  abbrev pub perform : Text → Operation M → ℕ → World → World
  perform key (add m) now = add_full_message codec key m now
  perform key (truncate k) now = truncate_history codec key k now
  perform key (replace ms) now = set_history codec key ms now
  perform key compaction now = λ w. (save codec key now w).1
  perform key (summarize s) now = set_summary codec key s now

  perform-store :
      (key : Text) (op : Operation M) (now : ℕ) (w : World)
      → perform key op now w ≡ (View.perform codec key op now w).1
  unfolding add_full_message truncate_history set_history save set_summary
  perform-store key (add m) now w = refl
  perform-store key (truncate k) now w = refl
  perform-store key (replace ms) now w = refl
  perform-store key compaction now w = refl
  perform-store key (summarize s) now w = refl

  -- Every file operation goes well.
  unfoldable pub perform_all : Text → List (Operation M × ℕ) → Files → Files
  perform_all key [] f = f
  perform_all key ((op, now) ∷ ops) f =
      perform_all key ops (perform key op now (calm codec f)).files

  perform_all-store :
      (key : Text) (ops : List (Operation M × ℕ)) (f : Files)
      → perform_all key ops f ≡ Refinement.perform_all codec key ops f
  unfolding perform_all Refinement.perform_all
  perform_all-store key [] f = refl
  perform_all-store key ((op, now) ∷ ops) f =
      perform_all-store key ops _
      ∙ ap (λ (w : World). Refinement.perform_all codec key ops w.files)
          (perform-store key op now (calm codec f))

  -- What the backend says of a session.
  abbrev pub said : Text → Files → Conversation M
  said key f = record {
    history = get_history codec key (calm codec f);
    summary = get_summary codec key (calm codec f);
  }

  said-apply_all :
      (key : Text) (ops : List (Operation M × ℕ))
      → All (λ o. IsEncodable codec o.0) ops
      → said key (perform_all key ops no_files) ≡ as_stored codec (apply_all ops new_conversation)
  unfolding get_history get_summary
  said-apply_all key ops h =
      let read = read_back codec key ops h in
      ap (said key) (perform_all-store key ops no_files)
      ∙ ap₂ (λ (h : List M) (s : Text). record { history = h; summary = s })
          (ap (λ (r : Result (List M) × World). or_default [] r.0) read.0)
          (ap (λ (r : Result Text × World). or_default [] r.0) read.1)

  -- A conversation that begins with a message has the same summary and the same messages in both
  -- backends, whatever operations follow, but that the JSONL backend gives each message as its JSON
  -- keeps it, where the session manager has it whole. The session is new to both, the file
  -- operations of the store go well, and its messages can be encoded within the scanner's limit.
  pub backends_agree :
      (key : Text) (m : M) (now : ℕ) (ops : List (Operation M × ℕ)) (sm : SessionManager M)
      → All (λ o. IsEncodable codec o.0) ((add m, now) ∷ ops)
      → lookup key sm.sessions ≡ none
      → let f = perform_all key ((add m, now) ∷ ops) no_files in
        let sm' = Steps.perform_all key ((add m, now) ∷ ops) sm in
        said key f ≡ as_stored codec (view key sm')
  unfolding apply_all
  backends_agree key m now ops sm h fresh =
      said-apply_all key ((add m, now) ∷ ops) h
      ∙ ap (as_stored codec) (sym (view-started key m now ops sm fresh))

  -- On a session that does not exist yet the backends differ: the store keeps a history that is
  -- set, each message as its JSON does, where its messages can be encoded and the file operations go
  -- well, and the session manager drops it.
  pub set_history_differs :
      (key : Text) (ms : List M) (now : ℕ) (sm : SessionManager M)
      → All (IsMarshalled codec) ms
      → lookup key sm.sessions ≡ none
      → (get_history codec key
            (calm codec (set_history codec key ms now (calm codec no_files)).files)
          ≡ map codec.stored ms)
        × (Manager.get_history key (Manager.set_history key ms now sm) ≡ [])
  unfolding apply_all perform_all Manager.get_history
  set_history_differs key ms now sm h fresh = (
    ap (λ (c : Conversation M). c.history) (said-apply_all key ((replace ms, now) ∷ []) (h, tt)),
    ap (λ (c : Conversation M). c.history) (Steps.perform_missing key (replace ms) now sm fresh)
        ∙ ap Manager.messages_of fresh,
  )
