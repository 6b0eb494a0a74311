-- ===== src/Raft/StateFile/Torn.antt =====
-- src/raft/state_file.cpp: a write that power loss cuts short costs nothing that was there before.
use log_engine.Prelude.{
  ℕ, suc, ◌%◌, ◌<◌, ◌≡◌, refl, ap, subst, ◌∙◌, ◌⊎◌, inl, inr, none, some, List, arith, ◌==◌,
  Bool-cases, length, take, drop, write_at, length-drop, drop-write_at, take-write_at, take_written,
  drop_written, length-write_at, IsU32, IsU64,
}
use log_engine.Base.Error.{ErrorCode, Result, ok, fail}
use log_engine.Raft.StateFile.{
  state_slot_bytes, state_file_bytes, PersistedState, state_slot_offset, encode_state_slot,
  decode_state_slot, newer, scan_slots, found_or_corrupt, scan_state_file,
}
use log_engine.Raft.StateFile.RoundTrip.{
  decode_state_slot-encode_state_slot, length-encode_state_slot,
}
use log_engine.Raft.Types.{HardState}

-- The slot that a sequence number belongs in.
abbrev pub slot_of : List ℕ → ℕ → List ℕ
slot_of file sequence = take state_slot_bytes (drop (state_slot_offset sequence) file)

abbrev pub written_slot : List ℕ → ℕ → List ℕ → List ℕ
written_slot file sequence slot = write_at file (state_slot_offset sequence) slot

-- A file of two slots holds the newer one of those that survive.
scan_two :
    (file : List ℕ)
    → length file ≡ state_file_bytes
    → scan_state_file file
      ≡ found_or_corrupt (
          newer
            (newer none (decode_state_slot (take 32 file)))
            (decode_state_slot (take 32 (drop 32 file))))
unfolding scan_state_file scan_slots
scan_two file e = rw e refl

module _ (file slot : List ℕ) (e : length file ≡ state_file_bytes)
    (f : length slot ≡ state_slot_bytes) where
  low_read : take 32 (write_at file 0 slot) ≡ slot
  low_read =
      subst (λ n. take n (write_at file 0 slot) ≡ slot) f (take_written file slot (omega arith))

  low_other : take 32 (drop 32 (write_at file 0 slot)) ≡ take 32 (drop 32 file)
  low_other =
      ap (take 32)
        (subst (λ n. drop n (write_at file 0 slot) ≡ drop n file) f (drop_written file slot))

  high_read : take 32 (drop 32 (write_at file 32 slot)) ≡ slot
  high_read =
      ap (take 32) (drop-write_at 32 file slot)
      ∙ subst (λ n. take n (write_at (drop 32 file) 0 slot) ≡ slot) f
          (take_written (drop 32 file) slot (omega (arith, length-drop 32 file)))

  high_other : take 32 (write_at file 32 slot) ≡ take 32 file
  high_other = take-write_at 32 file slot

-- The two places of `sequence` and of the next number.
parity : (n : ℕ) → ((n % 2 ≡ 0) × (suc n % 2 ≡ 1)) ⊎ ((n % 2 ≡ 1) × (suc n % 2 ≡ 0))
parity n = elim (Bool-cases (n % 2 == 0)) [
  | inl p ↦ inl (ground arith, ground arith)
  | inr p ↦ inr (ground arith, ground arith)
]

newer_of_two :
    (old new : PersistedState)
    → old.sequence < new.sequence
    → (newer (newer none (ok old)) (ok new) ≡ some new)
      × (newer (newer none (ok new)) (ok old) ≡ some new)
unfolding newer
newer_of_two old new h = (ground arith, ground arith)

module _ (file : List ℕ) (old : PersistedState) (e : length file ≡ state_file_bytes)
    (d : decode_state_slot (slot_of file old.sequence) ≡ ok old) where
  after_write :
      (slot : List ℕ) (r : Result PersistedState)
      → length slot ≡ state_slot_bytes
      → decode_state_slot slot ≡ r
      → (scan_state_file (written_slot file (suc old.sequence) slot)
          ≡ found_or_corrupt (newer (newer none (ok old)) r))
        ⊎ (scan_state_file (written_slot file (suc old.sequence) slot)
            ≡ found_or_corrupt (newer (newer none r) (ok old)))
  after_write slot r f g = elim (parity old.sequence) [
    | inl p ↦ inl (
        rw
          (
            p.1,
            scan_two (write_at file 32 slot) (length-write_at file 32 slot ∙ e),
            high_other file slot e f,
            high_read file slot e f,
            g,
            rw p.0 at d,
          )
          refl)
    | inr p ↦ inr (
        rw
          (
            p.1,
            scan_two (write_at file 0 slot) (length-write_at file 0 slot ∙ e),
            low_other file slot e f,
            low_read file slot e f,
            g,
            rw p.0 at d,
          )
          refl)
  ]

  -- The slot being written is damaged and does not decode: the state that was there is read.
  pub torn_write_keeps_state :
      (slot : List ℕ) (c : ErrorCode)
      → length slot ≡ state_slot_bytes
      → decode_state_slot slot ≡ fail c
      → scan_state_file (written_slot file (suc old.sequence) slot) ≡ ok old
  unfolding newer
  torn_write_keeps_state slot c f g = elim (after_write slot (fail c) f g) [ inl q ↦ q | inr q ↦ q ]

  -- The slot is written whole: the new state is read.
  pub whole_write_is_read :
      (out : List ℕ) (h : HardState)
      → length out ≡ state_slot_bytes
      → IsU64 h.term
      → IsU32 h.voted_for
      → IsU64 (suc old.sequence)
      → scan_state_file
          (written_slot file (suc old.sequence) (encode_state_slot out h (suc old.sequence)))
        ≡ ok (record { hard = h; sequence = suc old.sequence })
  whole_write_is_read out h f t v s =
      let new : PersistedState = record { hard = h; sequence = suc old.sequence } in
      let (p, q) = newer_of_two old new (omega arith) in
      elim (after_write (encode_state_slot out h (suc old.sequence)) (ok new)
        (length-encode_state_slot out h (suc old.sequence) f)
        (decode_state_slot-encode_state_slot out h (suc old.sequence) f t v s)) [
          | inl r ↦ rw p at r
          | inr r ↦ rw q at r
        ]
