-- ===== src/Media/Lifetime.antt =====
-- How long a reference of pkg/media/store.go resolves.
use nook_claw.Prelude.{
  ℕ, ◌≡◌, refl, sym, ap, ◌∙◌, Bool, true, false, not, ◌&&◌, ◌||◌, Option, none, some, List, [], ◌∷◌,
  arith, if◌then◌else◌, ◌==◌,
}
use nook_claw.Prelude.Text.{Text, text_eq, text_eq_iff, text_eq_refl}
use nook_claw.Prelude.Dict.{
  Dict, lookup, lookup-insert_self, lookup-insert_ne, lookup-delete, IsMap,
}
use nook_claw.Media.{
  MediaMeta, MediaEntry, RefSet, FileMediaStore, set_or_empty, store, resolve, resolve_with_meta,
  forget, release_refs, release_found, release_all, is_expired, expire, clean, clean_expired,
}
use nook_claw.Media.Consistency.{
  is_some, is_member, has_scope, IsConsistent, release_refs-refs, member-found,
}
use nook_claw.Media.Reach.{Reachable, Reachable-IsMap}

abbrev path_of : Option MediaEntry → Option Text
path_of none = none
path_of (some entry) = some entry.path

resolve-lookup : (r : Text) (s : FileMediaStore) → resolve r s ≡ path_of (lookup r s.refs)
unfolding resolve
resolve-lookup r s = ground arith

-- A file that was stored resolves to its path and what was said of it, and what other references
-- resolve to stays the same.
pub resolve-store :
    (ref local_path : Text) (meta : MediaMeta) (scope : Text) (now : ℕ) (s : FileMediaStore)
    (r : Text)
    → let (stored, s') = store true ref local_path meta scope now s in
      (stored ≡ some ref)
      × (resolve_with_meta ref s' ≡ some (local_path, meta))
      × (text_eq ref r ≡ false → resolve_with_meta r s' ≡ resolve_with_meta r s)
unfolding store resolve_with_meta
resolve-store ref local_path meta scope now s r =
    let entry : MediaEntry = record { path = local_path; meta = meta; stored_at = now } in
    (
      refl,
      ground (arith, lookup-insert_self ref entry s.refs),
      λ ne. ground (arith, lookup-insert_ne ref r entry s.refs ne),
    )

abbrev pub is_listed : Text → List Text → Bool
is_listed p [] = false
is_listed p (q ∷ qs) = text_eq q p || is_listed p qs

release_refs-listed :
    (r : Text) (refs : RefSet) (s : FileMediaStore) (entry : MediaEntry)
    → is_some (lookup r refs) ≡ true
    → lookup r s.refs ≡ some entry
    → is_listed entry.path (release_refs refs s).0 ≡ true
unfolding release_refs lookup
release_refs-listed r [] s entry h e = absurd (ground arith)
release_refs-listed r ((j, u) ∷ refs) s entry h e = ground (
  arith,
  e,
  text_eq_iff j r,
  text_eq_refl entry.path,
  lookup-delete j r s.refs,
  release_refs-listed r refs (forget j s) entry,
)

release_found-listed :
    (scope r : Text) (s : FileMediaStore) (refs : RefSet) (entry : MediaEntry)
    → lookup scope s.scope_to_refs ≡ some refs
    → lookup r s.refs ≡ some entry
    → is_member r scope s.scope_to_refs ≡ true
    → is_listed entry.path (release_found scope s (some refs)).0 ≡ true
release_found-listed scope r s refs entry e f h =
    release_refs-listed r refs s entry
      (sym (member-found scope r s.scope_to_refs (some refs) e) ∙ h) f

release_found-resolve :
    (scope r : Text) (s : FileMediaStore) (refs : RefSet)
    → lookup scope s.scope_to_refs ≡ some refs
    → resolve r (release_found scope s (some refs)).1
      ≡ (if is_member r scope s.scope_to_refs then none else resolve r s)
unfolding resolve
release_found-resolve scope r s refs e =
    ground (arith, release_refs-refs r refs s, member-found scope r s.scope_to_refs (some refs) e)

no_refs : (r : Text) → is_some (lookup r (set_or_empty none)) ≡ false
unfolding lookup
no_refs r = refl

-- ReleaseAll of a scope, on a store whose maps agree: the references of the scope resolve no
-- longer, the path of each of them is among the files to delete, and every other reference
-- resolves as before.
pub release_all_lem :
    (scope r : Text) (s : FileMediaStore) (entry : MediaEntry)
    → IsConsistent s
    → lookup r s.refs ≡ some entry
    → let (paths, s') = release_all scope s in
      let is_released = has_scope (lookup r s.ref_to_scope) scope in
      (resolve r s' ≡ (if is_released then none else resolve r s))
      × (is_released ≡ true → is_listed entry.path paths ≡ true)
unfolding release_all
release_all_lem scope r s entry h e = by_found (lookup scope s.scope_to_refs) refl
  where
    by_found :
        (o : Option RefSet)
        → lookup scope s.scope_to_refs ≡ o
        → let (paths, s') = release_found scope s o in
          let is_released = has_scope (lookup r s.ref_to_scope) scope in
          (resolve r s' ≡ (if is_released then none else resolve r s))
          × (is_released ≡ true → is_listed entry.path paths ≡ true)
    by_found none f =
        let no_member : has_scope (lookup r s.ref_to_scope) scope ≡ false =
          sym (h.scoped r scope) ∙ member-found scope r s.scope_to_refs none f ∙ no_refs r in
        (ground (arith, no_member), λ k. absurd (ground (arith, no_member)))
    by_found (some refs) f = (
      release_found-resolve scope r s refs f
          ∙ ap (λ (b : Bool). if b then none else resolve r s) (h.scoped r scope),
      λ k. release_found-listed scope r s refs entry f e (h.scoped r scope ∙ k),
    )

abbrev pub has_expired : ℕ → ℕ → Option MediaEntry → Bool
has_expired max_age now none = false
has_expired max_age now (some entry) = is_expired max_age now entry

clean-lookup :
    (now : ℕ) (r : Text) (entries : Dict MediaEntry) (s : FileMediaStore)
    → IsMap entries
    → lookup r (clean now entries s).1.refs
      ≡ (if has_expired s.max_age now (lookup r entries) then none else lookup r s.refs)
unfolding clean lookup expire
clean-lookup now r [] s h = refl
clean-lookup now r ((j, entry) ∷ entries) s h = ground (
  arith,
  clean-lookup now r entries (expire j s) h.1,
  clean-lookup now r entries s h.1,
  lookup-delete j r s.refs,
  text_eq_iff j r,
  h.0,
)

-- CleanExpired on a store that was reached by its operations: with a maximum age, the references
-- that were stored longer ago than it resolve no longer and all others as before; without one,
-- nothing changes.
pub resolve-clean_expired :
    (max_age now : ℕ) (r : Text) (s : FileMediaStore)
    → Reachable max_age s
    → resolve r (clean_expired now s).1 ≡ (
        if not (s.max_age == 0) && has_expired s.max_age now (lookup r s.refs)
        then none
        else resolve r s)
unfolding clean_expired resolve
resolve-clean_expired max_age now r s h =
    ground (arith, clean-lookup now r s.refs s (Reachable-IsMap max_age s h))
