-- ===== src/Media/Consistency.antt =====
-- The operations of pkg/media/store.go on its three maps.
use nook_claw.Prelude.{
  ℕ, ◌≡◌, refl, ap, Bool, true, false, not, ◌&&◌, ◌||◌, Option, none, some, [], ◌∷◌, arith,
  Bool-cases, Option-cases, inl, inr, if◌then◌else◌,
}
use nook_claw.Prelude.Text.{Text, text_eq, text_eq_iff, text_eq_refl}
use nook_claw.Prelude.Dict.{Dict, lookup, insert, delete, lookup-insert, lookup-delete}
use nook_claw.Media.{
  MediaMeta, MediaEntry, RefSet, FileMediaStore, set_or_empty, refs_of, registered, forget,
  release_refs, release_found, release_all, is_expired, shrink, without, out_of_scope, expire,
  clean,
}

abbrev pub is_some {ℓ} : {A : Type ℓ} → Option A → Bool
is_some none = false
is_some (some a) = true

abbrev pub is_member : Text → Text → Dict RefSet → Bool
is_member ref scope m = is_some (lookup ref (refs_of scope m))

abbrev pub has_scope : Option Text → Text → Bool
has_scope none scope = false
has_scope (some s) scope = text_eq s scope

-- A reference is in the set of a scope just where the reference's scope is that one, and it has a
-- scope just where it has an entry.
pub record IsConsistent (s : FileMediaStore) : Type 0 where
  pub scoped :
      (ref scope : Text)
      → is_member ref scope s.scope_to_refs ≡ has_scope (lookup ref s.ref_to_scope) scope
  pub known : (ref : Text) → is_some (lookup ref s.refs) ≡ is_some (lookup ref s.ref_to_scope)

unscoped :
    (s : FileMediaStore) (h : IsConsistent s) (ref : Text)
    → lookup ref s.refs ≡ none
    → lookup ref s.ref_to_scope ≡ none
unscoped s h ref e = ground (arith, h.known ref)

member-insert :
    (ref scope r sc : Text) (m : Dict RefSet)
    → is_member r sc (insert scope (insert ref tt (refs_of scope m)) m)
      ≡ (if text_eq scope sc then text_eq ref r || is_member r scope m else is_member r sc m)
unfolding refs_of
member-insert ref scope r sc m = ground (
  arith,
  lookup-insert scope sc (insert ref tt (refs_of scope m)) m,
  lookup-insert ref r tt (refs_of scope m),
)

pub registered-IsConsistent :
    (ref local_path : Text) (meta : MediaMeta) (scope : Text) (now : ℕ) (s : FileMediaStore)
    → lookup ref s.refs ≡ none
    → IsConsistent s
    → IsConsistent (registered ref local_path meta scope now s)
registered-IsConsistent ref local_path meta scope now s fresh h = record {
  scoped = λ r sc. ground (
    arith,
    member-insert ref scope r sc s.scope_to_refs,
    lookup-insert ref r scope s.ref_to_scope,
    h.scoped r sc,
    h.scoped r scope,
    unscoped s h ref fresh,
    text_eq_iff ref r,
    text_eq_iff scope sc,
  );
  known = λ r. ground (
    arith,
    lookup-insert ref r (record { path = local_path; meta = meta; stored_at = now }) s.refs,
    lookup-insert ref r scope s.ref_to_scope,
    h.known r,
  );
}

member-shrink :
    (scope r sc : Text) (m : Dict RefSet) (refs : RefSet)
    → is_member r sc (shrink scope m refs)
      ≡ (if text_eq scope sc then is_some (lookup r refs) else is_member r sc m)
unfolding refs_of lookup
member-shrink scope r sc m [] = ground (arith, lookup-delete scope sc m)
member-shrink scope r sc m ((j, u) ∷ refs) =
    ground (arith, lookup-insert scope sc ((j, u) ∷ refs) m)

member-without :
    (ref scope r sc : Text) (m : Dict RefSet)
    → is_member r sc (without ref scope m (lookup scope m))
      ≡ (is_member r sc m && not (text_eq scope sc && text_eq ref r))
unfolding refs_of lookup
member-without ref scope r sc m = elim (Option-cases (lookup scope m)) [
  | inl e ↦ ground (arith, e, text_eq_iff scope sc)
  | inr (refs, e) ↦ ground (
    arith,
    e,
    member-shrink scope r sc m (delete ref refs),
    lookup-delete ref r refs,
    text_eq_iff scope sc,
  )
]

member-out_of_scope :
    (ref r sc : Text) (o : Option Text) (m : Dict RefSet)
    → is_member r sc (out_of_scope ref o m)
      ≡ (is_member r sc m && not (has_scope o sc && text_eq ref r))
member-out_of_scope ref r sc none m = ground arith
member-out_of_scope ref r sc (some scope) m = member-without ref scope r sc m

expire-IsConsistent :
    (ref : Text) (s : FileMediaStore) → IsConsistent s → IsConsistent (expire ref s)
unfolding expire
expire-IsConsistent ref s h = record {
  scoped = λ r sc. ground (
    arith,
    member-out_of_scope ref r sc (lookup ref s.ref_to_scope) s.scope_to_refs,
    lookup-delete ref r s.ref_to_scope,
    h.scoped r sc,
    text_eq_iff ref r,
  );
  known = λ r.
      ground (arith, lookup-delete ref r s.refs, lookup-delete ref r s.ref_to_scope, h.known r);
}

pub clean-IsConsistent :
    (now : ℕ) (entries : Dict MediaEntry) (s : FileMediaStore)
    → IsConsistent s
    → IsConsistent (clean now entries s).1
unfolding clean
clean-IsConsistent now [] s h = h
clean-IsConsistent now ((ref, entry) ∷ entries) s h =
    elim (Bool-cases (is_expired s.max_age now entry)) [
      | inl e ↦ rw e (clean-IsConsistent now entries (expire ref s) (expire-IsConsistent ref s h))
      | inr e ↦ rw e (clean-IsConsistent now entries s h)
    ]

-- What the loop of ReleaseAll leaves of the three maps.
module _ (r : Text) where
  pub release_refs-refs :
      (refs : RefSet) (s : FileMediaStore)
      → lookup r (release_refs refs s).1.refs
        ≡ (if is_some (lookup r refs) then none else lookup r s.refs)
  unfolding release_refs lookup
  release_refs-refs [] s = refl
  release_refs-refs ((j, u) ∷ refs) s =
      ground (arith, release_refs-refs refs (forget j s), lookup-delete j r s.refs)

  pub release_refs-ref_to_scope :
      (refs : RefSet) (s : FileMediaStore)
      → lookup r (release_refs refs s).1.ref_to_scope
        ≡ (if is_some (lookup r refs) then none else lookup r s.ref_to_scope)
  unfolding release_refs lookup
  release_refs-ref_to_scope [] s = refl
  release_refs-ref_to_scope ((j, u) ∷ refs) s =
      ground (arith, release_refs-ref_to_scope refs (forget j s), lookup-delete j r s.ref_to_scope)

release_refs-scope_to_refs :
    (refs : RefSet) (s : FileMediaStore) → (release_refs refs s).1.scope_to_refs ≡ s.scope_to_refs
unfolding release_refs
release_refs-scope_to_refs [] s = refl
release_refs-scope_to_refs ((j, u) ∷ refs) s = release_refs-scope_to_refs refs (forget j s)

member-delete :
    (scope r sc : Text) (m : Dict RefSet)
    → is_member r sc (delete scope m) ≡ (if text_eq scope sc then false else is_member r sc m)
unfolding refs_of lookup
member-delete scope r sc m = ground (arith, lookup-delete scope sc m)

has_scope_unique :
    (o : Option Text) (a b : Text)
    → has_scope o a ≡ true
    → has_scope o b ≡ true
    → text_eq a b ≡ true
has_scope_unique none a b h k = absurd (ground arith)
has_scope_unique (some s) a b h k =
    ground (arith, text_eq_iff s a, text_eq_iff s b, text_eq_iff a b, text_eq_refl b)

pub member-found :
    (scope r : Text) (m : Dict RefSet) (o : Option RefSet)
    → lookup scope m ≡ o
    → is_member r scope m ≡ is_some (lookup r (set_or_empty o))
unfolding refs_of
member-found scope r m o e = ap (λ o. is_some (lookup r (set_or_empty o))) e

release_found-IsConsistent :
    (scope : Text) (s : FileMediaStore) (refs : RefSet)
    → lookup scope s.scope_to_refs ≡ some refs
    → IsConsistent s
    → IsConsistent (release_found scope s (some refs)).1
release_found-IsConsistent scope s refs e h = record {
  scoped = λ r sc. ground (
    arith,
    ap (λ m. is_member r sc (delete scope m)) (release_refs-scope_to_refs refs s),
    member-delete scope r sc s.scope_to_refs,
    release_refs-ref_to_scope r refs s,
    member-found scope r s.scope_to_refs (some refs) e,
    h.scoped r scope,
    h.scoped r sc,
    has_scope_unique (lookup r s.ref_to_scope) scope sc,
    text_eq_iff scope sc,
  );
  known = λ r.
      ground (arith, release_refs-refs r refs s, release_refs-ref_to_scope r refs s, h.known r);
}

pub release_all-IsConsistent :
    (scope : Text) (s : FileMediaStore) → IsConsistent s → IsConsistent (release_all scope s).1
unfolding release_all
release_all-IsConsistent scope s h = by_found (lookup scope s.scope_to_refs) refl
  where
    by_found :
        (o : Option RefSet)
        → lookup scope s.scope_to_refs ≡ o
        → IsConsistent (release_found scope s o).1
    by_found none e = h
    by_found (some refs) e = release_found-IsConsistent scope s refs e h
