-- ===== src/Media.antt =====
-- pkg/media/store.go: the registry of media files and the scopes that they belong to. The lock
-- makes an operation one step; the clock's reading and the new identifier are arguments. What is
-- deleted from disk behind the lock is a list of paths beside the new state.
pub mod Consistency
pub mod Reach
pub mod Lifetime
use nook_claw.Prelude.{
  ℕ, ◌+◌, Bool, true, false, Option, none, some, List, [], ◌∷◌, ltb, ◌==◌, length, if◌then◌else◌,
}
use nook_claw.Prelude.Text.{Text}
use nook_claw.Prelude.Dict.{Dict, lookup, insert, delete}

pub record MediaMeta : Type 0 where
  pub filename : Text
  pub content_type : Text
  pub source : Text

pub record MediaEntry : Type 0 where
  pub path : Text
  pub meta : MediaMeta
  pub stored_at : ℕ

-- map[string]struct{}
abbrev pub RefSet : Type 0
RefSet = Dict (Unit {0})

-- `max_age`: MaxAge of the cleaner's configuration, 0 where that is not positive.
pub record FileMediaStore : Type 0 where
  pub refs : Dict MediaEntry
  pub scope_to_refs : Dict RefSet
  pub ref_to_scope : Dict Text
  pub max_age : ℕ

abbrev pub new_file_media_store : ℕ → FileMediaStore
new_file_media_store max_age = record {
  refs = [];
  scope_to_refs = [];
  ref_to_scope = [];
  max_age = max_age;
}

abbrev pub set_or_empty : Option RefSet → RefSet
set_or_empty none = []
set_or_empty (some refs) = refs

unfoldable pub refs_of : Text → Dict RefSet → RefSet
refs_of scope m = set_or_empty (lookup scope m)

abbrev pub registered : Text → Text → MediaMeta → Text → ℕ → FileMediaStore → FileMediaStore
registered ref local_path meta scope now s = record s {
  refs = insert ref (record { path = local_path; meta = meta; stored_at = now }) s.refs;
  scope_to_refs = insert scope (insert ref tt (refs_of scope s.scope_to_refs)) s.scope_to_refs;
  ref_to_scope = insert ref scope s.ref_to_scope;
}

-- `exists`: whether os.Stat finds the file; `ref`: "media://" and a new UUID.
unfoldable pub store :
    Bool → Text → Text → MediaMeta → Text → ℕ → FileMediaStore → Option Text × FileMediaStore
unfolding refs_of
store exists ref local_path meta scope now s =
    if exists then (some ref, registered ref local_path meta scope now s) else (none, s)

unfoldable pub resolve_with_meta : Text → FileMediaStore → Option (Text × MediaMeta)
resolve_with_meta ref s = elim (lookup ref s.refs) [
  | none ↦ none
  | some entry ↦ some (entry.path, entry.meta)
]

unfoldable pub resolve : Text → FileMediaStore → Option Text
resolve ref s = elim (lookup ref s.refs) [ none ↦ none | some entry ↦ some entry.path ]

abbrev pub add_path : Option MediaEntry → List Text → List Text
add_path none paths = paths
add_path (some entry) paths = entry.path ∷ paths

abbrev pub forget : Text → FileMediaStore → FileMediaStore
forget ref s = record s { refs = delete ref s.refs; ref_to_scope = delete ref s.ref_to_scope }

-- The loop of ReleaseAll over the refs of the scope: the paths to delete, and the state.
unfoldable pub release_refs : RefSet → FileMediaStore → List Text × FileMediaStore
release_refs [] s = ([], s)
release_refs ((ref, u) ∷ refs) s =
    let (paths, s') = release_refs refs (forget ref s) in (add_path (lookup ref s.refs) paths, s')

abbrev pub release_found : Text → FileMediaStore → Option RefSet → List Text × FileMediaStore
release_found scope s none = ([], s)
release_found scope s (some refs) =
    let (paths, s') = release_refs refs s in
    (paths, record s' { scope_to_refs = delete scope s'.scope_to_refs })

unfoldable pub release_all : Text → FileMediaStore → List Text × FileMediaStore
unfolding release_refs
release_all scope s = release_found scope s (lookup scope s.scope_to_refs)

-- storedAt.Before(now.Add(-MaxAge))
abbrev pub is_expired : ℕ → ℕ → MediaEntry → Bool
is_expired max_age now entry = ltb (entry.stored_at + max_age) now

abbrev pub shrink : Text → Dict RefSet → RefSet → Dict RefSet
shrink scope m [] = delete scope m
shrink scope m (r ∷ rs) = insert scope (r ∷ rs) m

abbrev pub without : Text → Text → Dict RefSet → Option RefSet → Dict RefSet
without ref scope m none = m
without ref scope m (some refs) = shrink scope m (delete ref refs)

abbrev pub out_of_scope : Text → Option Text → Dict RefSet → Dict RefSet
out_of_scope ref none m = m
out_of_scope ref (some scope) m = without ref scope m (lookup scope m)

-- What the loop of CleanExpired does to an expired entry.
unfoldable pub expire : Text → FileMediaStore → FileMediaStore
expire ref s =
    forget ref
      (record s { scope_to_refs = out_of_scope ref (lookup ref s.ref_to_scope) s.scope_to_refs })

-- The loop of CleanExpired over the entries that the map had when it started.
unfoldable pub clean : ℕ → Dict MediaEntry → FileMediaStore → List Text × FileMediaStore
unfolding expire
clean now [] s = ([], s)
clean now ((ref, entry) ∷ entries) s =
    let (paths, s') = clean now entries (expire ref s) in
    let kept = clean now entries s in
    if is_expired s.max_age now entry then (entry.path ∷ paths, s') else kept

-- The code returns the number of these paths.
unfoldable pub clean_expired : ℕ → FileMediaStore → List Text × FileMediaStore
unfolding clean
clean_expired now s = if s.max_age == 0 then ([], s) else clean now s.refs s
