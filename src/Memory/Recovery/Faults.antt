-- ===== src/Memory/Recovery/Faults.antt =====
-- Rules for what an operation of pkg/memory/jsonl.go leaves, whatever its file operations meet.
use nook_claw.Prelude.{ℕ, ◌≡◌, refl, List, take}
use nook_claw.Memory.Codec.{Bytes}
use nook_claw.Memory.Disk.{
  Files, Fault, fine, failed, torn, not_synced, MemoryError, io_error, Result, ok, err, Io, ◌>>=◌,
  ◌>>◌, pure, lift, read_file, write_file_atomic, append_file, appended, next_fault, later_faults,
  reading, replacing, appending,
}

-- `C` holds of the result and the files, whatever the file operations meet.
pub record Survives {A : Type 0} (C : Result A → Files → Type 0) (f : Files) (m : Io A)
    : Type 0 where
  pub at : (fs : List Fault) → let r = m (record { files = f; faults = fs }) in C r.0 r.1.files

module _ {C : Result (Unit {0}) → Files → Type 0} {f : Files} where
  pub survive-pure : C (ok tt) f → Survives C f (pure tt)
  survive-pure h = record { at = λ fs. h }

  pub survive-write_last :
      (g : Files → Files)
      → C (err io_error) f
      → C (ok tt) (g f)
      → Survives C f (write_file_atomic g)
  unfolding write_file_atomic
  survive-write_last g h k = record { at = λ fs. met (next_fault fs) fs }
    where
      met :
          (fault : Fault) (fs : List Fault)
          → let r = replacing g fault (record { files = f; faults = later_faults fs }) in
            C r.0 r.1.files
      met fine fs = k
      met _ fs = h

module _ {A : Type 0} {C : Result (Unit {0}) → Files → Type 0} {f : Files} where
  pub survive-lift :
      (r : Result A) (k : A → Io (Unit {0}))
      → ((e : MemoryError) → C (err e) f)
      → ((a : A) → r ≡ ok a → Survives C f (k a))
      → Survives C f (lift r >>= k)
  survive-lift (ok a) k h go = record { at = (go a refl).at }
  survive-lift (err e) k h go = record { at = λ fs. h e }

  pub survive-read :
      (g : Files → A) (k : A → Io (Unit {0}))
      → C (err io_error) f
      → Survives C f (k (g f))
      → Survives C f (read_file g >>= k)
  unfolding read_file
  survive-read g k h go = record { at = λ fs. met (next_fault fs) fs }
    where
      met :
          (fault : Fault) (fs : List Fault)
          → let r =
              ((λ w. reading g fault w) >>= k) (record { files = f; faults = later_faults fs }) in
            C r.0 r.1.files
      met fine fs = go.at (later_faults fs)
      met _ fs = h

  pub survive-read_lift :
      {B : Type 0} (g : Files → B) (r : B → Result A) (k : A → Io (Unit {0})) (a : A)
      → r (g f) ≡ ok a
      → C (err io_error) f
      → Survives C f (k a)
      → Survives C f ((do x ← read_file g; lift (r x)) >>= k)
  unfolding read_file
  survive-read_lift g r k a e h go = record { at = λ fs. met (next_fault fs) fs }
    where
      met :
          (fault : Fault) (fs : List Fault)
          → let r =
              (((λ w. reading g fault w) >>= λ x. lift (r x)) >>= k)
                (record { files = f; faults = later_faults fs }) in
            C r.0 r.1.files
      met fine fs = rw e (go.at (later_faults fs))
      met _ fs = h

module _ {C : Result (Unit {0}) → Files → Type 0} {f : Files} where
  pub survive-write :
      (g : Files → Files) (k : Io (Unit {0}))
      → C (err io_error) f
      → Survives C (g f) k
      → Survives C f (write_file_atomic g >> k)
  unfolding write_file_atomic
  survive-write g k h go = record { at = λ fs. met (next_fault fs) fs }
    where
      met :
          (fault : Fault) (fs : List Fault)
          → let r =
              ((λ w. replacing g fault w) >> k) (record { files = f; faults = later_faults fs }) in
            C r.0 r.1.files
      met fine fs = go.at (later_faults fs)
      met _ fs = h

  pub survive-append :
      (bs : Bytes) (k : Io (Unit {0}))
      → C (err io_error) f
      → ((n : ℕ) → C (err io_error) (appended (take n bs) f))
      → C (err io_error) (appended bs f)
      → Survives C (appended bs f) k
      → Survives C f (append_file bs >> k)
  unfolding append_file
  survive-append bs k h part all go = record { at = λ fs. met (next_fault fs) fs }
    where
      met :
          (fault : Fault) (fs : List Fault)
          → let r =
              ((λ w. appending bs fault w) >> k) (record { files = f; faults = later_faults fs }) in
            C r.0 r.1.files
      met fine fs = go.at (later_faults fs)
      met failed fs = h
      met (torn n) fs = part n
      met not_synced fs = all
