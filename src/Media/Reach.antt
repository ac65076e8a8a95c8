-- ===== src/Media/Reach.antt =====
-- The states that pkg/media/store.go reaches from an empty store.
use nook_claw.Prelude.{
  ℕ, ◌≡◌, refl, Bool, true, false, Option, none, some, [], ◌∷◌, Bool-cases, inl, inr, ◌==◌,
}
use nook_claw.Prelude.Text.{Text}
use nook_claw.Prelude.Dict.{Dict, lookup, IsMap, insert-IsMap, delete-IsMap}
use nook_claw.Media.{
  MediaMeta, MediaEntry, RefSet, FileMediaStore, new_file_media_store, refs_of, store, forget,
  release_refs, release_found, release_all, is_expired, expire, clean, clean_expired,
}
use nook_claw.Media.Consistency.{
  IsConsistent, registered-IsConsistent, clean-IsConsistent, release_all-IsConsistent,
}

-- One operation that changes the store. A stored file's reference is a new UUID.
pub data Step (s : FileMediaStore) : FileMediaStore → Type 0 where
  stored :
      (exists : Bool) (ref local_path : Text) (meta : MediaMeta) (scope : Text) (now : ℕ)
      → lookup ref s.refs ≡ none
      → Step s (store exists ref local_path meta scope now s).1
  released : (scope : Text) → Step s (release_all scope s).1
  cleaned : (now : ℕ) → Step s (clean_expired now s).1

pub data Reachable (max_age : ℕ) : FileMediaStore → Type 0 where
  started : Reachable max_age (new_file_media_store max_age)
  then_step : {s t : FileMediaStore} → Reachable max_age s → Step s t → Reachable max_age t

Step-IsConsistent : {s t : FileMediaStore} → Step s t → IsConsistent s → IsConsistent t
unfolding store clean_expired
Step-IsConsistent {s} (stored true ref local_path meta scope now fresh) h =
    registered-IsConsistent ref local_path meta scope now s fresh h
Step-IsConsistent (stored false ref local_path meta scope now fresh) h = h
Step-IsConsistent {s} (released scope) h = release_all-IsConsistent scope s h
Step-IsConsistent {s} (cleaned now) h = elim (Bool-cases (s.max_age == 0)) [
  | inl e ↦ rw e h
  | inr e ↦ rw e (clean-IsConsistent now s.refs s h)
]

clean-IsMap :
    (now : ℕ) (entries : Dict MediaEntry) (s : FileMediaStore)
    → IsMap s.refs
    → IsMap (clean now entries s).1.refs
unfolding clean expire
clean-IsMap now [] s h = h
clean-IsMap now ((ref, entry) ∷ entries) s h = elim (Bool-cases (is_expired s.max_age now entry)) [
  | inl e ↦ rw e (clean-IsMap now entries (expire ref s) (delete-IsMap ref s.refs h))
  | inr e ↦ rw e (clean-IsMap now entries s h)
]

release_refs-IsMap :
    (refs : RefSet) (s : FileMediaStore) → IsMap s.refs → IsMap (release_refs refs s).1.refs
unfolding release_refs
release_refs-IsMap [] s h = h
release_refs-IsMap ((j, u) ∷ refs) s h =
    release_refs-IsMap refs (forget j s) (delete-IsMap j s.refs h)

release_found-IsMap :
    (scope : Text) (s : FileMediaStore) (o : Option RefSet)
    → IsMap s.refs
    → IsMap (release_found scope s o).1.refs
release_found-IsMap scope s none h = h
release_found-IsMap scope s (some refs) h = release_refs-IsMap refs s h

Step-IsMap : {s t : FileMediaStore} → Step s t → IsMap s.refs → IsMap t.refs
unfolding store clean_expired release_all
Step-IsMap {s} (stored true ref local_path meta scope now fresh) h =
    insert-IsMap ref (record { path = local_path; meta = meta; stored_at = now }) s.refs h
Step-IsMap (stored false ref local_path meta scope now fresh) h = h
Step-IsMap {s} (released scope) h = release_found-IsMap scope s (lookup scope s.scope_to_refs) h
Step-IsMap {s} (cleaned now) h = elim (Bool-cases (s.max_age == 0)) [
  | inl e ↦ rw e h
  | inr e ↦ rw e (clean-IsMap now s.refs s h)
]

pub Reachable-IsMap : (max_age : ℕ) (s : FileMediaStore) → Reachable max_age s → IsMap s.refs
Reachable-IsMap max_age _ started = tt
Reachable-IsMap max_age t (then_step {s} r step) = Step-IsMap step (Reachable-IsMap max_age s r)

-- Whatever is stored, released and cleaned up, and in whatever order, the maps agree: a reference
-- is listed under a scope just where that is its scope, and has a scope just where it resolves.
pub Reachable-IsConsistent :
    (max_age : ℕ) (s : FileMediaStore) → Reachable max_age s → IsConsistent s
unfolding lookup refs_of
Reachable-IsConsistent max_age _ started = record {
  scoped = λ ref scope. refl;
  known = λ ref. refl;
}
Reachable-IsConsistent max_age t (then_step {s} r step) =
    Step-IsConsistent step (Reachable-IsConsistent max_age s r)
