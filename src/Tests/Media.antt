-- ===== src/Tests/Media.antt =====
-- The media registry of pkg/media/store.go with one or two files.
use nook_claw.Prelude.{◌≡◌, refl, true, false, not, ◌&&◌, none, some, if◌then◌else◌, ◌==◌}
use nook_claw.Prelude.Text.{Text, codes, text_eq}
use nook_claw.Prelude.Dict.{lookup, insert, delete}
use nook_claw.Media.{
  MediaMeta, FileMediaStore, new_file_media_store, store, resolve, resolve_with_meta, release_all,
  clean_expired,
}
use nook_claw.Media.Consistency.{IsConsistent, has_scope}
use nook_claw.Media.Reach.{stored, Reachable, started, then_step, Reachable-IsConsistent}
use nook_claw.Media.Lifetime.{
  is_listed, has_expired, resolve-store, release_all_lem, resolve-clean_expired,
}

abbrev photo_meta : MediaMeta
photo_meta = record {
  filename = codes "a.png";
  content_type = codes "image/png";
  source = codes "telegram";
}

abbrev photo : Text
photo = codes "media://1"

abbrev voice : Text
voice = codes "media://2"

abbrev with_photo : FileMediaStore
with_photo =
    (store true photo (codes "/tmp/a") photo_meta (codes "chat") 5 (new_file_media_store 10)).1

photo_is_new : lookup photo (new_file_media_store 10).refs ≡ none
unfolding lookup
photo_is_new = refl

photo_reached : Reachable 10 with_photo
photo_reached =
    then_step started (stored true photo (codes "/tmp/a") photo_meta (codes "chat") 5 photo_is_new)

Reachable-IsConsistent_example : IsConsistent with_photo
Reachable-IsConsistent_example = Reachable-IsConsistent 10 with_photo photo_reached

photo-IsConsistent : IsConsistent with_photo
photo-IsConsistent = Reachable-IsConsistent 10 with_photo photo_reached

photo_entry :
    lookup photo with_photo.refs
    ≡ some (record { path = codes "/tmp/a"; meta = photo_meta; stored_at = 5 })
unfolding lookup store insert text_eq
photo_entry = refl

resolve-store_example :
    let (ref, s') = store true voice (codes "/tmp/b") photo_meta (codes "chat") 6 with_photo in
    (ref ≡ some voice)
    × (resolve_with_meta voice s' ≡ some (codes "/tmp/b", photo_meta))
    × (text_eq voice photo ≡ false
        → resolve_with_meta photo s' ≡ resolve_with_meta photo with_photo)
resolve-store_example =
    resolve-store voice (codes "/tmp/b") photo_meta (codes "chat") 6 with_photo photo

release_all_lem_example :
    let (paths, s') = release_all (codes "chat") with_photo in
    let is_released = has_scope (lookup photo with_photo.ref_to_scope) (codes "chat") in
    (resolve photo s' ≡ (if is_released then none else resolve photo with_photo))
    × (is_released ≡ true → is_listed (codes "/tmp/a") paths ≡ true)
release_all_lem_example =
    release_all_lem (codes "chat") photo with_photo
      (record { path = codes "/tmp/a"; meta = photo_meta; stored_at = 5 }) photo-IsConsistent
      photo_entry

resolve-clean_expired_example : resolve photo (clean_expired 16 with_photo).1 ≡ (
    if not (with_photo.max_age == 0)
      && has_expired with_photo.max_age 16 (lookup photo with_photo.refs)
    then none
    else resolve photo with_photo)
resolve-clean_expired_example = resolve-clean_expired 10 16 photo with_photo photo_reached

photo_expired : resolve photo (clean_expired 16 with_photo).1 ≡ none
unfolding resolve clean_expired store insert delete lookup text_eq
photo_expired = refl
