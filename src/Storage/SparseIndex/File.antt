-- ===== src/Storage/SparseIndex/File.antt =====
-- src/storage/sparse_index.cpp: the index file. It is never fsynced, so nothing is taken on trust.
use log_engine.Prelude.{
  ℕ, zero, suc, ◌+◌, ◌*◌, ◌/◌, ◌<◌, ◌≡◌, refl, sym, ap, subst, ◌∙◌, true, false, not, some, List,
  [], ◌∷◌, ◌++◌, arith, leb, if_intro, length, drop, length-append, drop-drop, All, IsU32,
}
use mathlib.Core.List.{append-nil, append_assoc}
use mathlib.Core.Path.{ap₂}
use log_engine.Base.Buffer.{Buffer, contents}
use log_engine.Base.Buffer.View.{IsBuffer, Appends, append_u32_le-Appends, Appends-trans}
use log_engine.Base.Endian.{split_u32, load_u32_le}
use log_engine.Base.Endian.RoundTrip.{join_u32-split, load_u32_le-drop}
use log_engine.Raft.Quiet.{All-append}
use log_engine.Storage.SparseIndex.{
  IndexEntry, index_entry_bytes, back, push_back, encode_index, load_entry, follows, decode_entries,
  decode_index,
}
use log_engine.Storage.SparseIndex.Sorted.{RisesFrom, IsIndex, push_back-IsIndex, PointsBelow}

-- What is read back is in order and points into the log, whatever the bytes.
decode_entries_sound :
    (bytes : List ℕ) (log_size at count : ℕ) (es : List IndexEntry)
    → IsIndex es
    → PointsBelow log_size es
    → IsIndex (decode_entries bytes log_size at count es)
      × PointsBelow log_size (decode_entries bytes log_size at count es)
unfolding decode_entries
decode_entries_sound bytes log_size at zero es h p = (h, p)
decode_entries_sound bytes log_size at (suc count) es h p =
    if_intro Sound (leb log_size e.file_pos) _ _ (λ _. (h, p))
      λ q.
        if_intro Sound (not (follows (back es) e)) _ _ (λ _. (h, p))
          λ f.
            decode_entries_sound bytes log_size (at + 8) count (push_back es e)
              (push_back-IsIndex es e h (negated f))
              (All-append (λ x. x.file_pos < log_size) es (e ∷ []) p (ground arith, tt))
  where
    e : IndexEntry
    e = load_entry bytes at

    Sound : List IndexEntry → Type 0
    Sound r = IsIndex r × PointsBelow log_size r

    negated : not (follows (back es) e) ≡ false → follows (back es) e ≡ true
    negated f = ground arith

-- Whatever bytes the index file holds, what is read from it rises in both fields and points into the
-- log.
pub decode_index_sound :
    (bytes : List ℕ) (log_size : ℕ)
    → IsIndex (decode_index bytes log_size) × PointsBelow log_size (decode_index bytes log_size)
unfolding decode_index
decode_index_sound bytes log_size =
    decode_entries_sound bytes log_size 0 (length bytes / index_entry_bytes) [] tt tt

abbrev entry_bytes : IndexEntry → List ℕ
entry_bytes e = split_u32 e.rel_offset ++ split_u32 e.file_pos

abbrev pub index_bytes : List IndexEntry → List ℕ
index_bytes [] = []
index_bytes (e ∷ es) = entry_bytes e ++ index_bytes es

pub encode_index-Appends :
    (es : List IndexEntry) (out : Buffer)
    → IsBuffer out
    → Appends (index_bytes es) out (encode_index es out)
unfolding encode_index
encode_index-Appends [] out v = record { view = sym (append-nil (contents out)); valid = v }
encode_index-Appends (e ∷ es) out v =
    let a = append_u32_le-Appends e.rel_offset out v in
    let b = append_u32_le-Appends e.file_pos _ a.valid in
    Appends-trans (split_u32 e.rel_offset) (split_u32 e.file_pos ++ index_bytes es) out _ _ a (
      Appends-trans (split_u32 e.file_pos) (index_bytes es) _ _ _ b
        (encode_index-Appends es _ b.valid))

abbrev pub IsEntry : IndexEntry → Type 0
IsEntry e = IsU32 e.rel_offset × IsU32 e.file_pos

load_entry_lem :
    (bytes rest : List ℕ) (at : ℕ) (e : IndexEntry)
    → IsEntry e
    → drop at bytes ≡ entry_bytes e ++ rest
    → load_entry bytes at ≡ e
unfolding load_u32_le
load_entry_lem bytes rest at e w h =
    ap₂ (λ r q. record { rel_offset = r; file_pos = q }) first second
  where
    first : load_u32_le bytes at ≡ e.rel_offset
    first =
        load_u32_le-drop bytes at ∙ ap (λ p. load_u32_le p 0) h ∙ join_u32-split e.rel_offset w.0

    second : load_u32_le bytes (at + 4) ≡ e.file_pos
    second =
        load_u32_le-drop bytes (at + 4)
        ∙ ap (λ p. load_u32_le p 0) (sym (drop-drop at 4 bytes) ∙ ap (drop 4) h)
        ∙ join_u32-split e.file_pos w.1

back-push_back : (es : List IndexEntry) (e : IndexEntry) → back (push_back es e) ≡ some e
back-push_back [] e = refl
back-push_back (d ∷ []) e = refl
back-push_back (d ∷ c ∷ es) e = back-push_back (c ∷ es) e

decode_entries_lem :
    (bytes rest : List ℕ) (log_size at : ℕ) (es acc : List IndexEntry)
    → All IsEntry es
    → RisesFrom (back acc) es
    → PointsBelow log_size es
    → drop at bytes ≡ index_bytes es ++ rest
    → decode_entries bytes log_size at (length es) acc ≡ acc ++ es
unfolding decode_entries
decode_entries_lem bytes rest log_size at [] acc w r p h = sym (append-nil acc)
decode_entries_lem bytes rest log_size at (e ∷ es) acc w r p h =
    rw
      (
        load_entry_lem bytes (index_bytes es ++ rest) at e w.0 placed,
        ap (λ x. x.file_pos) (load_entry_lem bytes (index_bytes es ++ rest) at e w.0 placed),
        le_of p.0,
        r.0,
      )
      (decode_entries_lem bytes rest log_size (at + 8) es (push_back acc e) w.1
          (subst (λ b. RisesFrom b es) (sym (back-push_back acc e)) r.1) p.1
          (sym (drop-drop at 8 bytes) ∙ ap (drop 8) placed)
        ∙ append_assoc acc (e ∷ []) es)
  where
    placed : drop at bytes ≡ entry_bytes e ++ (index_bytes es ++ rest)
    placed = h ∙ append_assoc (entry_bytes e) (index_bytes es) rest

    le_of : e.file_pos < log_size → leb log_size e.file_pos ≡ false
    le_of l = ground arith

length-index_bytes : (es : List IndexEntry) → length (index_bytes es) ≡ 8 * length es
length-index_bytes [] = refl
length-index_bytes (e ∷ es) = omega (arith, length-index_bytes es)

-- A sorted index whose entries point into the log is read back from its bytes, also when a part of
-- one more entry follows.
pub decode_index-index_bytes :
    (es : List IndexEntry) (rest : List ℕ) (log_size : ℕ)
    → All IsEntry es
    → IsIndex es
    → PointsBelow log_size es
    → length rest < index_entry_bytes
    → decode_index (index_bytes es ++ rest) log_size ≡ es
unfolding decode_index
decode_index-index_bytes es rest log_size w r p l =
    ap (λ n. decode_entries (index_bytes es ++ rest) log_size 0 n []) count
    ∙ decode_entries_lem (index_bytes es ++ rest) rest log_size 0 es [] w r p refl
  where
    count : length (index_bytes es ++ rest) / index_entry_bytes ≡ length es
    count = omega (arith, length-append (index_bytes es) rest, length-index_bytes es)

-- The same through the buffer that the index is encoded into.
pub decode_index-encode_index :
    (es : List IndexEntry) (out : Buffer) (log_size : ℕ)
    → IsBuffer out
    → contents out ≡ []
    → All IsEntry es
    → IsIndex es
    → PointsBelow log_size es
    → decode_index (contents (encode_index es out)) log_size ≡ es
decode_index-encode_index es out log_size v e w r p =
    ap (λ b. decode_index b log_size)
      ((encode_index-Appends es out v).view
        ∙ ap (λ t. t ++ index_bytes es) e
        ∙ sym (append-nil (index_bytes es)))
    ∙ decode_index-index_bytes es [] log_size w r p (omega arith)
