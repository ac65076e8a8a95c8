-- ===== src/Tests/Session.antt =====
-- The two backends of pkg/session with the tagged flags of Tests.Codecs as messages.
use nook_claw.Prelude.{ℕ, ◌≡◌, refl, true, false, none, some, List, [], ◌∷◌, All, if◌then◌else◌}
use nook_claw.Prelude.Text.{Text, codes, text_eq, is_empty}
use nook_claw.Prelude.Int.{pos}
use nook_claw.Prelude.Dict.{lookup}
use nook_claw.Memory.Disk.{no_files}
use nook_claw.Memory.View.{Operation, add, truncate, apply, as_stored, calm, IsEncodable}
use nook_claw.Session.Manager.{
  Session, SessionManager, sanitize_filename, saved, save, new_session_manager, get_history,
  set_history,
}
use nook_claw.Session.Manager.Steps.{view, perform, has_session, creates, view-perform}
use nook_claw.Session.Manager.Steps
use nook_claw.Session.Manager.Restart.{IsSavable, load-save, save_collision}
use nook_claw.Session.Backend
use nook_claw.Session.Backend.Agreement.{said, perform_all, backends_agree, set_history_differs}
use nook_claw.Tests.Codecs.{Tagged, untagged, tagged_codec, write_flag}
use nook_claw.Tests.Memory.{tagged_encoded}

abbrev key1 : Text
key1 = codes "chat:1"

abbrev key2 : Text
key2 = codes "chat/1"

abbrev session1 : Session Tagged
session1 = record { key = key1; messages = (true, 4) ∷ []; summary = []; created = 1; updated = 1 }

abbrev session2 : Session Tagged
session2 = record { key = key2; messages = (false, 5) ∷ []; summary = []; created = 1; updated = 2 }

abbrev manager : SessionManager Tagged
manager = record { sessions = (key1, session1) ∷ (key2, session2) ∷ []; storage = codes "sessions" }

abbrev empty_manager : SessionManager Tagged
empty_manager = record { sessions = []; storage = [] }

view-perform_example : view key1 (perform key1 (truncate (pos 1)) 5 manager) ≡ (
    if has_session key1 manager
    then apply (truncate (pos 1)) (view key1 manager)
    else if creates {M = Tagged} (truncate (pos 1))
    then apply (truncate (pos 1)) (view key1 manager)
    else view key1 manager)
view-perform_example = view-perform key1 (truncate (pos 1)) 5 manager

savable1 : IsSavable manager key1 session1
unfolding lookup text_eq sanitize_filename is_empty
savable1 = record { held = refl; own_key = refl; named = refl }

savable2 : IsSavable manager key2 session2
unfolding lookup text_eq sanitize_filename is_empty
savable2 = record { held = refl; own_key = refl; named = refl }

has_storage : is_empty manager.storage ≡ false
unfolding is_empty
has_storage = refl

keys_differ : text_eq key2 key1 ≡ false
unfolding text_eq
keys_differ = refl

one_name : sanitize_filename key1 ≡ sanitize_filename key2
unfolding sanitize_filename
one_name = refl

load-save_example :
    lookup key1
      (new_session_manager manager.storage (save untagged true key1 manager []).1).sessions
    ≡ some (record session1 { messages = (true, 0) ∷ [] })
load-save_example = load-save untagged manager key1 session1 has_storage savable1

save_collision_example :
    let first = save untagged true key1 manager [] in
    let second = save untagged true key2 manager first.1 in
    let restarted = (new_session_manager manager.storage second.1).sessions in
    (first.0 ≡ saved)
    × (second.0 ≡ saved)
    × (lookup key1 restarted ≡ none)
    × (lookup key2 restarted ≡ some (record session2 { messages = (false, 0) ∷ [] }))
save_collision_example =
    save_collision untagged manager key1 key2 session1 session2 has_storage savable1 savable2
      one_name keys_differ

abbrev later : List (Operation Tagged × ℕ)
later = (add (false, 9), 2) ∷ (truncate (pos 1), 3) ∷ []

later-IsEncodable : All (λ o. IsEncodable tagged_codec o.0) ((add (true, 8), 1) ∷ later)
later-IsEncodable = (
  (write_flag true, tagged_encoded (true, 8)),
  ((write_flag false, tagged_encoded (false, 9)), (tt, tt)),
)

never_made : lookup key1 empty_manager.sessions ≡ none
unfolding lookup
never_made = refl

backends_agree_example :
    said tagged_codec key1 (perform_all tagged_codec key1 ((add (true, 8), 1) ∷ later) no_files)
    ≡ as_stored tagged_codec
        (view key1 (Steps.perform_all key1 ((add (true, 8), 1) ∷ later) empty_manager))
backends_agree_example =
    backends_agree tagged_codec key1 (true, 8) 1 later empty_manager later-IsEncodable never_made

set_history_differs_example :
    (Backend.get_history tagged_codec key1 (
        calm tagged_codec
          (Backend.set_history tagged_codec key1
            ((true, 8) ∷ [])
            5
            (calm tagged_codec no_files)).files)
      ≡ (true, 0) ∷ [])
    × (get_history key1 (set_history key1 ((true, 8) ∷ []) 5 empty_manager) ≡ [])
set_history_differs_example =
    set_history_differs tagged_codec key1 ((true, 8) ∷ []) 5 empty_manager
      ((write_flag true, tagged_encoded (true, 8)), tt) never_made
