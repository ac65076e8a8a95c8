-- ===== src/Session/Backend.antt =====
-- pkg/session/jsonl_backend.go: the store of pkg/memory behind the interface of
-- pkg/session/session_store.go. An error of a write is logged and goes no further.
pub mod Agreement
use nook_claw.Prelude.{ℕ, List, []}
use nook_claw.Prelude.Text.{Text}
use nook_claw.Prelude.Int.{ℤ}
use nook_claw.Memory.Codec.{Codec}
use nook_claw.Memory.Disk.{Result, ok, err, World, Io}
use nook_claw.Memory.Store

abbrev ignoring_error : Io (Unit {0}) → World → World
ignoring_error m w = (m w).1

abbrev pub or_default : {A : Type 0} → A → Result A → A
or_default default (ok a) = a
or_default default (err e) = default

module _ {M : Type 0} (codec : Codec M) where
  unfoldable pub add_full_message : Text → M → ℕ → World → World
  add_full_message key msg now = ignoring_error (Store.add_msg codec key msg now)

  unfoldable pub get_history : Text → World → List M
  get_history key w = or_default [] (Store.get_history codec key w).0

  unfoldable pub get_summary : Text → World → Text
  get_summary key w = or_default [] (Store.get_summary codec key w).0

  unfoldable pub set_summary : Text → Text → ℕ → World → World
  set_summary key summary now = ignoring_error (Store.set_summary codec key summary now)

  unfoldable pub set_history : Text → List M → ℕ → World → World
  set_history key history now = ignoring_error (Store.set_history codec key history now)

  unfoldable pub truncate_history : Text → ℤ → ℕ → World → World
  truncate_history key keep_last now =
      ignoring_error (Store.truncate_history codec key keep_last now)

  unfoldable pub save : Text → ℕ → Io (Unit {0})
  save key now = Store.compact codec key now
