-- ===== src/Session/Manager/Restart.antt =====
-- Sessions of pkg/session/manager.go over a restart: they are saved under the sanitised key and
-- loaded under the key itself.
use nook_claw.Prelude.{◌≡◌, refl, true, false, none, some, []}
use nook_claw.Prelude.Text.{Text, text_eq, text_eq_refl, is_empty}
use nook_claw.Prelude.Dict.{Dict, lookup, insert, lookup-insert_self, lookup-insert_ne}
use nook_claw.Session.Manager.{
  Session, SessionManager, as_stored, sanitize_filename, saved, is_file_name, save, load_sessions,
  new_session_manager,
}

module _ {M : Type 0} (sm : SessionManager M) where
  -- The manager holds the session under its own key, which makes a file name.
  pub record IsSavable (key : Text) (s : Session M) : Type 0 where
    pub held : lookup key sm.sessions ≡ some s
    pub own_key : s.key ≡ key
    pub named : is_file_name (sanitize_filename key) ≡ true

module _ {M : Type 0} (stored : M → M) (sm : SessionManager M) where
  save-saved :
      (key : Text) (s : Session M) (files : Dict (Session M))
      → is_empty sm.storage ≡ false
      → IsSavable sm key s
      → save stored true key sm files
        ≡ (saved, insert (sanitize_filename key) (as_stored stored s) files)
  unfolding save
  save-saved key s files e h = rw (e, h.named, h.held)

  -- The manager has a storage directory, which is empty, and holds the session under its own key,
  -- which makes a file name. Once the session is saved by file operations that go well, it is there
  -- after a restart, with each message as its JSON keeps it.
  pub load-save :
      (key : Text) (s : Session M)
      → is_empty sm.storage ≡ false
      → IsSavable sm key s
      → lookup key (new_session_manager sm.storage (save stored true key sm []).1).sessions
        ≡ some (as_stored stored s)
  unfolding new_session_manager insert
  load-save key s e h =
      rw (save-saved key s [] e h, e, load_sessions, h.own_key) (lookup-insert_self key _ [])

  -- Of two sessions whose keys have one file name only the one that was saved last is there after
  -- a restart, with each message as its JSON keeps it, though both were saved without an error.
  pub save_collision :
      (key1 key2 : Text) (s1 s2 : Session M)
      → is_empty sm.storage ≡ false
      → IsSavable sm key1 s1
      → IsSavable sm key2 s2
      → sanitize_filename key1 ≡ sanitize_filename key2
      → text_eq key2 key1 ≡ false
      → let first = save stored true key1 sm [] in
        let second = save stored true key2 sm first.1 in
        let restarted = (new_session_manager sm.storage second.1).sessions in
        (first.0 ≡ saved)
        × (second.0 ≡ saved)
        × (lookup key1 restarted ≡ none)
        × (lookup key2 restarted ≡ some (as_stored stored s2))
  unfolding new_session_manager insert lookup
  save_collision key1 key2 s1 s2 e h1 h2 same other =
      rw
        (
          save-saved key1 s1 [] e h1,
          save-saved key2 s2 _ e h2,
          same,
          text_eq_refl,
          e,
          load_sessions,
          h2.own_key,
        )
        (refl, refl, lookup-insert_ne key2 key1 _ [] other, lookup-insert_self key2 _ [])
