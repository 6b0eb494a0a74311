-- ===== src/Storage/SparseIndex.antt =====
-- src/storage/sparse_index.h and src/storage/sparse_index.cpp: places to start a scan of a segment.
-- The entries stand in the order of the vector; the binary searches are the linear ones, which agree
-- on sorted entries.
pub mod Sorted
pub mod Lookup
pub mod File
pub mod Kept
use log_engine.Prelude.{
  ℕ, zero, suc, ◌+◌, ◌-◌, ◌/◌, Bool, true, false, not, ◌||◌, Option, none, some, List, [], ◌∷◌,
  ◌++◌, ltb, leb, if◌then◌else◌, length,
}
use log_engine.Base.Buffer.{Buffer, append_u32_le}
use log_engine.Base.Endian.{load_u32_le}

pub record IndexEntry : Type 0 where
  pub rel_offset : ℕ
  pub file_pos : ℕ

abbrev pub first_entry : IndexEntry
first_entry = record { rel_offset = 0; file_pos = 0 }

abbrev pub index_entry_bytes : ℕ
index_entry_bytes = 8

-- `entries_.back()`, if there is one.
abbrev pub back : List IndexEntry → Option IndexEntry
back [] = none
back (e ∷ []) = some e
back (e ∷ d ∷ es) = back (d ∷ es)

abbrev pub push_back : List IndexEntry → IndexEntry → List IndexEntry
push_back es e = es ++ (e ∷ [])

-- The last entry leaves room for the new one.
abbrev pub leaves_room : Option IndexEntry → ℕ → ℕ → ℕ → Bool
leaves_room none rel pos interval = true
leaves_room (some last) rel pos interval =
    if leb rel last.rel_offset
    then false
    else if leb pos last.file_pos
    then false
    else not (ltb (pos - last.file_pos) interval)

unfoldable pub maybe_add : List IndexEntry → ℕ → ℕ → ℕ → List IndexEntry
maybe_add es rel pos interval =
    if leaves_room (back es) rel pos interval
    then push_back es (record { rel_offset = rel; file_pos = pos })
    else es

-- The entry before the first one that is past the target.
unfoldable pub last_before : IndexEntry → List IndexEntry → ℕ → IndexEntry
last_before best [] rel = best
last_before best (e ∷ es) rel = if ltb rel e.rel_offset then best else last_before e es rel

unfoldable pub lookup_index : List IndexEntry → ℕ → IndexEntry
unfolding last_before
lookup_index es rel = last_before first_entry es rel

unfoldable pub truncate_index : List IndexEntry → ℕ → List IndexEntry
truncate_index [] pos = []
truncate_index (e ∷ es) pos = if ltb e.file_pos pos then e ∷ truncate_index es pos else []

unfoldable pub encode_index : List IndexEntry → Buffer → Buffer
encode_index [] out = out
encode_index (e ∷ es) out =
    encode_index es (append_u32_le e.file_pos (append_u32_le e.rel_offset out))

abbrev pub load_entry : List ℕ → ℕ → IndexEntry
load_entry bytes at = record {
  rel_offset = load_u32_le bytes at;
  file_pos = load_u32_le bytes (at + 4);
}

abbrev pub follows : Option IndexEntry → IndexEntry → Bool
follows none e = true
follows (some last) e = not (leb e.rel_offset last.rel_offset || leb e.file_pos last.file_pos)

-- `count` turns of the loop from position `at` on.
unfoldable pub decode_entries : List ℕ → ℕ → ℕ → ℕ → List IndexEntry → List IndexEntry
decode_entries bytes log_size at zero es = es
decode_entries bytes log_size at (suc count) es =
    let e = load_entry bytes at in
    let rest = decode_entries bytes log_size (at + index_entry_bytes) count (push_back es e) in
    if leb log_size e.file_pos then es else if not (follows (back es) e) then es else rest

unfoldable pub decode_index : List ℕ → ℕ → List IndexEntry
unfolding decode_entries
decode_index bytes log_size = decode_entries bytes log_size 0 (length bytes / index_entry_bytes) []
