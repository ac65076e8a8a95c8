-- ===== src/Tests/Memory.antt =====
-- The session store of pkg/memory/jsonl.go with the encodings of Tests.Codecs.
use nook_claw.Prelude.{
  ℕ, suc, ◌<◌, ◌≡◌, refl, Bool, true, false, none, List, [], ◌∷◌, ◌++◌, All, arith, length, map,
  take,
}
use nook_claw.Prelude.Text.{Text, codes, text_eq}
use nook_claw.Prelude.Int.{pos}
use nook_claw.Memory.Disk.{fine, failed, ok, err, line_too_long, no_files}
use nook_claw.Memory.Store.{max_line_size, add_msg, get_history, get_summary}
use nook_claw.Memory.Store.Lines.{EncodedAs}
use nook_claw.Memory.View.{
  Operation, apply_all, new_conversation, add, truncate, replace, compaction, summarize, perform,
  calm, IsEncodable, Represents,
}
use nook_claw.Memory.Refinement.{
  Succeeds, perform-Succeeds, perform_all, read_back, no_files-Represents,
}
use nook_claw.Memory.Recovery.{Recovered, perform-Survives}
use nook_claw.Memory.Recovery.Lost.{torn_files, torn_append_loses_next, too_long_unreadable}
use nook_claw.Tests.Codecs.{
  Tagged, untagged, tagged_codec, write_flag, read_flag, flag_codec, xs, length-xs, long_codec,
}

abbrev chat : Text
chat = codes "telegram:1"

pub flag_encoded : (m : Bool) → EncodedAs flag_codec m (write_flag m)
unfolding max_line_size
flag_encoded true = (refl, omega arith)
flag_encoded false = (refl, omega arith)

new : Represents flag_codec no_files new_conversation
new = no_files-Represents flag_codec

pub tagged_encoded : (m : Tagged) → EncodedAs tagged_codec m (write_flag m.0)
unfolding max_line_size
tagged_encoded (true, n) = (refl, omega arith)
tagged_encoded (false, n) = (refl, omega arith)

abbrev tagged : List Tagged
tagged = (true, 7) ∷ (false, 8) ∷ []

perform-Succeeds_example :
    Succeeds tagged_codec
      (perform tagged_codec chat (replace tagged) 5 (calm tagged_codec no_files))
      (record { history = (true, 0) ∷ (false, 0) ∷ []; summary = [] })
perform-Succeeds_example =
    perform-Succeeds tagged_codec chat (replace tagged) 5 no_files new_conversation
      (
        (write_flag true, tagged_encoded (true, 7)),
        ((write_flag false, tagged_encoded (false, 8)), tt),
      )
      (no_files-Represents tagged_codec)

torn_line_short : length (take 2 (write_flag true) ++ write_flag false) < max_line_size
unfolding max_line_size
torn_line_short = omega arith

torn_line_undecoded : read_flag (take 2 (write_flag true) ++ write_flag false) ≡ none
unfolding text_eq
torn_line_undecoded = refl

abbrev operations : List (Operation Tagged × ℕ)
operations =
    (add (true, 1), 1)
    ∷ (add (false, 2), 2)
    ∷ (add (false, 3), 3)
    ∷ (truncate (pos 2), 4)
    ∷ (compaction, 5)
    ∷ (summarize (codes "two"), 6)
    ∷ []

operations-IsEncodable : All (λ o. IsEncodable tagged_codec o.0) operations
operations-IsEncodable = (
  (write_flag true, tagged_encoded (true, 1)),
  (
    (write_flag false, tagged_encoded (false, 2)),
    ((write_flag false, tagged_encoded (false, 3)), (tt, (tt, (tt, tt)))),
  ),
)

read_back_example :
    let f = perform_all tagged_codec chat operations no_files in
    let c = apply_all operations new_conversation in
    (get_history tagged_codec chat (calm tagged_codec f)
      ≡ (ok (map untagged c.history), calm tagged_codec f))
    × (get_summary tagged_codec chat (calm tagged_codec f) ≡ (ok c.summary, calm tagged_codec f))
read_back_example = read_back tagged_codec chat operations operations-IsEncodable

perform-Survives_example :
    let r =
      perform flag_codec chat
        (replace (true ∷ []))
        5
        (record { files = no_files; faults = fine ∷ fine ∷ failed ∷ [] }) in
    Recovered flag_codec chat (replace (true ∷ [])) new_conversation new.logged r.0 r.1.files
perform-Survives_example =
    perform-Survives flag_codec chat (replace (true ∷ [])) 5 no_files new_conversation
      ((write_flag true, flag_encoded true), tt) new (fine ∷ fine ∷ failed ∷ [])

torn_append_loses_next_example :
    let r =
      add_msg flag_codec chat false 6
        (calm flag_codec (torn_files flag_codec chat no_files new_conversation new true 2 6)) in
    (r.0 ≡ ok tt) × ((get_history flag_codec chat (calm flag_codec r.1.files)).0 ≡ ok [])
torn_append_loses_next_example =
    torn_append_loses_next flag_codec chat no_files new_conversation new true false
      (write_flag true) (write_flag false) 1 6 (flag_encoded true) (flag_encoded false)
      (omega arith) torn_line_short torn_line_undecoded

too_long_unreadable_example :
    let r =
      add_msg (long_codec max_line_size) chat tt 6 (calm (long_codec max_line_size) no_files) in
    (r.0 ≡ ok tt)
    × ((get_history (long_codec max_line_size) chat (calm (long_codec max_line_size) r.1.files)).0
        ≡ err line_too_long)
too_long_unreadable_example =
    too_long_unreadable (long_codec max_line_size) chat no_files new_conversation
      (no_files-Represents (long_codec max_line_size)) tt (xs (suc max_line_size)) 6 refl
      (omega (arith, length-xs (suc max_line_size)))
