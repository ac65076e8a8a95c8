-- ===== src/Session/Manager.antt =====
-- pkg/session/manager.go: sessions in memory, saved as one file each. The lock makes an operation
-- one step; its reading of the clock is an argument. A file is kept as the session that its JSON
-- stands for, which has of each message only what encoding/json keeps.
pub mod Steps
pub mod Restart
use nook_claw.Prelude.{
  ℕ, zero, suc, ◌-◌, Bool, true, false, ◌||◌, Option, none, some, List, [], ◌∷◌, ◌++◌, map, length,
  drop, leb, if◌then◌else◌,
}
use nook_claw.Prelude.Text.{Text, codes, text_eq, is_empty, replace_all}
use nook_claw.Prelude.Int.{ℤ, pos, negsuc}
use nook_claw.Prelude.Dict.{Dict, lookup, insert}

pub record Session (M : Type 0) : Type 0 where
  pub key : Text
  pub messages : List M
  pub summary : Text
  pub created : ℕ
  pub updated : ℕ

pub record SessionManager (M : Type 0) : Type 0 where
  pub sessions : Dict (Session M)
  pub storage : Text

unfoldable pub sanitize_filename : Text → Text
unfolding replace_all
sanitize_filename key = replace_all b'\\' b'_' (replace_all b'/' b'_' (replace_all b':' b'_' key))

-- The errors of Save: os.ErrInvalid, or a file operation before the rename that failed.
pub data Saved : Type 0 where
  saved invalid_name not_written : Saved

-- filepath.IsLocal of a name without separators, and the test for "." before it.
abbrev pub is_file_name : Text → Bool
is_file_name name =
    if text_eq name (codes ".")
    then false
    else if is_empty name || text_eq name (codes "..")
    then false
    else true

module _ {M : Type 0} where
  abbrev pub new_session : Text → ℕ → Session M
  new_session key now = record {
    key = key;
    messages = [];
    summary = [];
    created = now;
    updated = now;
  }

  abbrev pub session_or_new : Text → ℕ → Option (Session M) → Session M
  session_or_new key now none = new_session key now
  session_or_new key now (some s) = s

  abbrev pub put : Text → Session M → SessionManager M → SessionManager M
  put key s sm = record sm { sessions = insert key s sm.sessions }

  abbrev pub update_found :
      Text → (Session M → Session M) → SessionManager M → Option (Session M) → SessionManager M
  update_found key f sm none = sm
  update_found key f sm (some s) = put key (f s) sm

  -- What is done to a session that is there; nothing where there is none.
  unfoldable pub update : Text → (Session M → Session M) → SessionManager M → SessionManager M
  update key f sm = update_found key f sm (lookup key sm.sessions)

  unfoldable pub get_or_create : Text → ℕ → SessionManager M → Session M × SessionManager M
  get_or_create key now sm = elim (lookup key sm.sessions) [
    | none ↦ (new_session key now, put key (new_session key now) sm)
    | some s ↦ (s, sm)
  ]

  unfoldable pub add_full_message : Text → M → ℕ → SessionManager M → SessionManager M
  add_full_message key msg now sm =
      let s = session_or_new key now (lookup key sm.sessions) in
      put key (record s { messages = s.messages ++ msg ∷ []; updated = now }) sm

  abbrev pub messages_of : Option (Session M) → List M
  messages_of none = []
  messages_of (some s) = s.messages

  unfoldable pub get_history : Text → SessionManager M → List M
  get_history key sm = messages_of (lookup key sm.sessions)

  abbrev pub summary_of : Option (Session M) → Text
  summary_of none = []
  summary_of (some s) = s.summary

  unfoldable pub get_summary : Text → SessionManager M → Text
  get_summary key sm = summary_of (lookup key sm.sessions)

  unfoldable pub set_summary : Text → Text → ℕ → SessionManager M → SessionManager M
  unfolding update
  set_summary key summary now = update key (λ s. record s { summary = summary; updated = now })

  abbrev pub truncated : ℤ → ℕ → Session M → Session M
  truncated (pos (suc k)) now s =
      if leb (length s.messages) (suc k)
      then s
      else record s { messages = drop (length s.messages - suc k) s.messages; updated = now }
  truncated _ now s = record s { messages = []; updated = now }

  unfoldable pub truncate_history : Text → ℤ → ℕ → SessionManager M → SessionManager M
  unfolding update
  truncate_history key keep_last now = update key (truncated keep_last now)

  unfoldable pub set_history : Text → List M → ℕ → SessionManager M → SessionManager M
  unfolding update
  set_history key history now = update key (λ s. record s { messages = history; updated = now })

  abbrev pub write_session : Bool → Text → Session M → Dict (Session M) → Saved × Dict (Session M)
  write_session true name s files = (saved, insert name s files)
  write_session false name s files = (not_written, files)

  -- What the JSON of a session stands for: its messages without the fields that are left out.
  abbrev pub as_stored : (M → M) → Session M → Session M
  as_stored stored s = record s { messages = map stored s.messages }

  -- `stored`: a message without the fields that encoding/json leaves out, as it is in
  -- Memory.Codec. `written`: whether every file operation up to the rename goes well. The files are those of the
  -- storage directory, by their names without the extension.
  unfoldable pub save :
      (M → M) → Bool → Text → SessionManager M → Dict (Session M) → Saved × Dict (Session M)
  unfolding sanitize_filename
  save stored written key sm files =
      let name = sanitize_filename key in
      if is_empty sm.storage
      then (saved, files)
      else if is_file_name name
      then elim (lookup key sm.sessions) [
        | none ↦ (saved, files)
        | some s ↦ write_session written name (as_stored stored s) files
      ]
      else (invalid_name, files)

  -- The loop of loadSessions over the files that can be read and decoded, each as what it decodes
  -- to.
  unfoldable pub load_sessions : Dict (Session M) → Dict (Session M) → Dict (Session M)
  load_sessions [] sessions = sessions
  load_sessions ((name, s) ∷ files) sessions = load_sessions files (insert s.key s sessions)

  unfoldable pub new_session_manager : Text → Dict (Session M) → SessionManager M
  unfolding load_sessions
  new_session_manager storage files = record {
    sessions = if is_empty storage then [] else load_sessions files [];
    storage = storage;
  }
