-- ===== src/Memory/Store.antt =====
-- pkg/memory/jsonl.go: the operations of JSONLStore on the files of one session. A session's lock
-- is held throughout, so an operation is one step; its reading of the clock is an argument.
pub mod Lines
use nook_claw.Prelude.{
  ℕ, zero, suc, ◌+◌, ◌-◌, ◌*◌, Bool, true, false, ◌&&◌, ◌||◌, Option, none, some, List, [], ◌∷◌,
  ◌++◌, length, ltb, leb, ◌==◌, if◌then◌else◌,
}
use nook_claw.Prelude.Text.{Text, is_empty, replace_all}
use nook_claw.Prelude.Int.{ℤ, pos, negsuc}
use nook_claw.Prelude.Dict.{Dict, lookup, insert}
use nook_claw.Memory.Codec.{Bytes, newline, carriage_return, Codec}
use nook_claw.Memory.Disk.{
  SessionMeta, Files, no_files, MemoryError, io_error, marshal_error, line_too_long, Result, ok,
  err, World, Io, ◌>>=◌, ◌>>◌, pure, lift, read_file, write_file_atomic, append_file, contents,
}

-- 10 MB
unfoldable pub max_line_size : ℕ
max_line_size = 10 * 1024 * 1024

unfoldable pub sanitize_key : Text → Text
unfolding replace_all
sanitize_key key = replace_all b'\\' b'_' (replace_all b'/' b'_' (replace_all b':' b'_' key))

abbrev cons_first : ℕ → List Bytes → List Bytes
cons_first c [] = (c ∷ []) ∷ []
cons_first c (l ∷ ls) = (c ∷ l) ∷ ls

-- bufio.ScanLines, before a carriage return at the end is dropped.
unfoldable pub split_lines : Bytes → List Bytes
split_lines [] = []
split_lines (c ∷ cs) =
    let rest = split_lines cs in if c == newline then [] ∷ rest else cons_first c rest

unfoldable pub drop_cr : Bytes → Bytes
drop_cr [] = []
drop_cr (c ∷ []) = if c == carriage_return then [] else c ∷ []
drop_cr (c ∷ d ∷ ds) = c ∷ drop_cr (d ∷ ds)

-- The scanner stops with an error at a line that its buffer cannot hold with its line feed.
unfoldable pub any_too_long : List Bytes → Bool
any_too_long [] = false
any_too_long (l ∷ ls) = leb max_line_size (length l) || any_too_long ls

module _ {M : Type 0} (codec : Codec M) where
  abbrev pub keep_decoded : Option M → List M → List M
  keep_decoded none msgs = msgs
  keep_decoded (some m) msgs = m ∷ msgs

  -- The loop of readMessages, behind `line_num` lines.
  unfoldable pub scan : ℕ → ℕ → List Bytes → List M
  scan skip line_num [] = []
  scan skip line_num (l ∷ ls) =
      let line = drop_cr l in
      let same = scan skip line_num ls in
      let rest = scan skip (line_num + 1) ls in
      if is_empty line
      then same
      else if leb (line_num + 1) skip
      then rest
      else keep_decoded (codec.unmarshal line) rest

  unfoldable pub read_messages_from : ℕ → Option Bytes → Result (List M)
  unfolding scan split_lines drop_cr any_too_long
  read_messages_from skip none = ok []
  read_messages_from skip (some bs) =
      let lines = split_lines bs in
      if any_too_long lines then err line_too_long else ok (scan skip 0 lines)

  unfoldable pub read_messages : ℕ → Io (List M)
  unfolding read_messages_from read_file
  read_messages skip = do file ← read_file (λ f. f.jsonl); lift (read_messages_from skip file)

  unfoldable pub count_nonempty : List Bytes → ℕ
  count_nonempty [] = 0
  count_nonempty (l ∷ ls) = let n = count_nonempty ls in if is_empty (drop_cr l) then n else n + 1

  unfoldable pub count_lines_from : Option Bytes → Result ℕ
  unfolding count_nonempty split_lines drop_cr any_too_long
  count_lines_from none = ok 0
  count_lines_from (some bs) =
      let lines = split_lines bs in
      if any_too_long lines then err line_too_long else ok (count_nonempty lines)

  unfoldable pub count_lines : Io ℕ
  unfolding count_lines_from read_file
  count_lines = do file ← read_file (λ f. f.jsonl); lift (count_lines_from file)

  abbrev pub meta_or_new : Text → Option SessionMeta → SessionMeta
  meta_or_new key none = record {
    key = key;
    summary = [];
    skip = 0;
    count = 0;
    created_at = 0;
    updated_at = 0;
  }
  meta_or_new key (some meta) = meta

  unfoldable pub read_meta : Text → Io SessionMeta
  unfolding read_file
  read_meta key = read_file (λ f. meta_or_new key f.meta)

  unfoldable pub write_meta : SessionMeta → Io (Unit {0})
  unfolding write_file_atomic
  write_meta meta = write_file_atomic (λ f. record f { meta = some meta })

  abbrev pub marshalled : Option Bytes → Result Bytes
  marshalled none = err marshal_error
  marshalled (some l) = ok l

  -- addMsg behind the encoding.
  unfoldable pub add_line : Text → ℕ → Bytes → Io (Unit {0})
  unfolding append_file read_meta write_meta
  add_line session_key now line = do
    append_file (line ++ newline ∷ [])
    meta ← read_meta session_key
    let created = if meta.count == 0 && meta.created_at == 0 then now else meta.created_at
    write_meta (record meta { count = meta.count + 1; created_at = created; updated_at = now })

  unfoldable pub add_msg : Text → M → ℕ → Io (Unit {0})
  unfolding add_line
  add_msg session_key msg now = do
    line ← lift (marshalled (codec.marshal msg))
    add_line session_key now line

  unfoldable pub get_history : Text → Io (List M)
  unfolding read_meta read_messages
  get_history session_key = do meta ← read_meta session_key; read_messages meta.skip

  unfoldable pub get_summary : Text → Io Text
  unfolding read_meta
  get_summary session_key = do meta ← read_meta session_key; pure meta.summary

  unfoldable pub set_summary : Text → Text → ℕ → Io (Unit {0})
  unfolding read_meta write_meta
  set_summary session_key summary now = do
    meta ← read_meta session_key
    let created = if meta.created_at == 0 then now else meta.created_at
    write_meta (record meta { summary = summary; created_at = created; updated_at = now })

  -- The new skip of TruncateHistory over `count` lines. `count - skip` is 0 where the code's
  -- difference is negative, which no positive keepLast is below.
  unfoldable pub truncated_skip : ℤ → ℕ → ℕ → ℕ
  truncated_skip (pos zero) count skip = count
  truncated_skip (pos (suc k)) count skip =
      if ltb (suc k) (count - skip) then count - suc k else skip
  truncated_skip (negsuc k) count skip = count

  unfoldable pub truncate_history : Text → ℤ → ℕ → Io (Unit {0})
  unfolding read_meta write_meta count_lines truncated_skip
  truncate_history session_key keep_last now = do
    meta ← read_meta session_key
    n ← count_lines
    write_meta
        (record meta { count = n; skip = truncated_skip keep_last n meta.skip; updated_at = now })

  unfoldable pub encode_all : List M → Option Bytes
  encode_all [] = some []
  encode_all (m ∷ ms) = elim (codec.marshal m) [
    | none ↦ none
    | some l ↦ elim (encode_all ms) [ none ↦ none | some bs ↦ some (l ++ newline ∷ bs) ]
  ]

  unfoldable pub rewrite_jsonl : List M → Io (Unit {0})
  unfolding encode_all write_file_atomic
  rewrite_jsonl msgs = do
    bytes ← lift (marshalled (encode_all msgs))
    write_file_atomic (λ f. record f { jsonl = some bytes })

  unfoldable pub set_history : Text → List M → ℕ → Io (Unit {0})
  unfolding read_meta write_meta rewrite_jsonl
  set_history session_key history now = do
    meta ← read_meta session_key
    let created = if meta.created_at == 0 then now else meta.created_at
    write_meta
        (record meta { skip = 0; count = length history; created_at = created; updated_at = now })
    rewrite_jsonl history

  -- Compact behind its test of the skip.
  unfoldable pub drop_skipped : SessionMeta → ℕ → Io (Unit {0})
  unfolding read_messages write_meta rewrite_jsonl
  drop_skipped meta now = do
    active ← read_messages meta.skip
    write_meta (record meta { skip = 0; count = length active; updated_at = now })
    rewrite_jsonl active

  unfoldable pub compact : Text → ℕ → Io (Unit {0})
  unfolding read_meta drop_skipped
  compact session_key now = do
    meta ← read_meta session_key
    if meta.skip == 0 then pure tt else drop_skipped meta now
