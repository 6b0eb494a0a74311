-- ===== src/Server/Broker/Vote.antt =====
-- src/server/broker.cpp: the term and the vote that Broker::persist stored are read again by
-- Broker::load_hard_state after a power cut.
use log_engine.Prelude.{
  ℕ, zero, suc, ◌+◌, ◌^◌, ◌≤◌, ◌<◌, ◌≡◌, refl, sym, ap, subst, ◌∙◌, true, false, List, [], ◌∷◌,
  ◌++◌, arith, length, take, drop, replicate, write_at, length-write_at, IsU32, IsU64, add_u64,
}
use log_engine.Base.Error.{Result, ok, fail}
use log_engine.Io.Disk.{mode_create, pure, carry_on, ◌>>=◌}
use log_engine.Io.Disk.Laws.{Alters, Writes}
use log_engine.Io.Paths.{slash, normalize, has_path}
use log_engine.Io.SimDisk.{SimDisk, open_as, pwrite}
use log_engine.Io.SimDisk.AsDisk.{sim_disk, IsOpen, HoldsBytes, IsSoundDisk, sim_view}
use log_engine.Io.SimDisk.Lawful.{sim_disk-IsDisk}
use log_engine.Io.SimDisk.Reopen.{after_power_cut, pwrite_frame, IsBack, fsync-IsBack}
use log_engine.Io.SimDisk.Sound.{IsSound, disk-KeepsSound}
use log_engine.Raft.StateFile.{
  state_slot_bytes, state_file_bytes, PersistedState, state_slot_offset, encode_state_slot,
  decode_state_slot, scan_state_file,
}
use log_engine.Raft.StateFile.RoundTrip.{length-encode_state_slot}
use log_engine.Raft.StateFile.Torn.{slot_of, written_slot, whole_write_is_read}
use log_engine.Raft.Types.{HardState}
use log_engine.Server.Broker.{state_file_name, Machine, persist}
use log_engine.Server.Broker.Loaded.{Loads, read_hard_state-Loads}
use log_engine.Server.Broker.Start.{read_hard_state, load_hard_state}
use log_engine.Server.Broker.Stored.{persist_lem}
use log_engine.Storage.SparseIndex.{back}

-- A write inside a file.
write_at-inside :
    (b q : List ℕ) (n : ℕ)
    → n + length q ≤ length b
    → write_at b n q ≡ take n b ++ (q ++ drop (n + length q) b)
write_at-inside b [] zero h = refl
write_at-inside [] (x ∷ q) zero h = absurd (omega arith)
write_at-inside (a ∷ b) (x ∷ q) zero h =
    ap (λ t. x ∷ t) (write_at-inside b q 0 (omega arith))
    ∙ ap (λ k. x ∷ (q ++ drop k (a ∷ b))) {x = suc (0 + length q)} {y = 0 + length (x ∷ q)}
        (omega arith)
write_at-inside [] q (suc n) h = absurd (omega arith)
write_at-inside (a ∷ b) q (suc n) h =
    ap (λ t. a ∷ t) (write_at-inside b q n (omega arith))
    ∙ ap (λ k. a ∷ (take n b ++ (q ++ drop k (a ∷ b)))) {x = suc (n + length q)}
        {y = suc n + length q} (omega arith)

abbrev pub state_path : List ℕ → List ℕ
state_path dir = dir ++ ((slash ∷ []) ++ state_file_name)

-- `raft.state` is open and has two slots, of which the one of the last write holds a state.
pub record HasState (w : Machine sim_disk) (b : List ℕ) (old : PersistedState) : Type 0 where
  pub handle : IsOpen w.disk w.broker.state_file (normalize (state_path w.broker.config.data_dir))
  pub bytes : HoldsBytes w.disk (normalize (state_path w.broker.config.data_dir)) b
  pub slots : length b ≡ state_file_bytes
  pub decodes : decode_state_slot (slot_of b old.sequence) ≡ ok old
  pub sequence : w.broker.state_sequence ≡ suc old.sequence
  pub counted : IsU64 (suc old.sequence)

-- What is loaded, unless the disk fails.
abbrev pub Remembers : HardState → ℕ → SimDisk → Result (ℕ × HardState × ℕ) × SimDisk → Type 0
Remembers h sequence c (ok (file, hard, n), r) = (hard ≡ h) × (n ≡ add_u64 sequence 1)
Remembers h sequence c (fail e, r) = ¬ IsSoundDisk c

-- What the state file holds after the write.
module _ (w : Machine sim_disk) (b : List ℕ) (old : PersistedState) (h : HardState) where
  abbrev pub new_bytes : List ℕ
  new_bytes =
      written_slot b (suc old.sequence)
        (encode_state_slot (replicate state_slot_bytes 0) h (suc old.sequence))

  read_back :
      (c : SimDisk)
      → IsBack c (state_path w.broker.config.data_dir) new_bytes
      → length new_bytes ≡ state_file_bytes
      → scan_state_file new_bytes ≡ ok (record { hard = h; sequence = suc old.sequence })
      → Remembers h (suc old.sequence) c (load_hard_state sim_disk w.broker.config.data_dir c)
  unfolding load_hard_state read_hard_state
  read_back c back long scanned =
      subst
        (λ x. Remembers h (suc old.sequence) c (
          carry_on x (λ file.
            read_hard_state sim_disk file >>= λ (hard, sequence). pure (file, hard, sequence))))
        (sym back.opened)
        (loaded _ (
          read_hard_state-Loads _ c.next_id _ new_bytes
            (record { hard = h; sequence = suc old.sequence }) back.handle back.bytes long scanned))
    where
      loaded :
          (x : Result (HardState × ℕ) × SimDisk)
          → Loads
              (record { hard = h; sequence = suc old.sequence })
              (open_as (normalize (state_path w.broker.config.data_dir)) mode_create c).1
              x
          → Remembers h
              (suc old.sequence)
              c
              (carry_on x (λ (hard, sequence). pure (c.next_id, hard, sequence)))
      loaded (ok (hard, n), r) k = k
      loaded (fail e, r) k = λ s. k (back.sound s)

  abbrev written_place : ℕ
  written_place = state_slot_offset w.broker.state_sequence

  abbrev written_bytes : List ℕ
  written_bytes = encode_state_slot (replicate state_slot_bytes 0) h w.broker.state_sequence

  whole_write :
      (x : Result ℕ × SimDisk)
      → x.0 ≡ ok (length written_bytes)
      → Writes sim_view w.disk
          (normalize (state_path w.broker.config.data_dir))
          b
          written_bytes
          written_place
          x
      → Alters sim_view w.disk x.1
          (normalize (state_path w.broker.config.data_dir))
          (take written_place b ++ (written_bytes ++ drop (written_place + length written_bytes) b))
  whole_write (ok n, r) e k = k.0 (ok_same n (length written_bytes) e)
    where
      ok_same : (n m : ℕ) → ◌≡◌ {A = Result ℕ} (ok n) (ok m) → n ≡ m
      ok_same n m e = ground (arith, e)
  whole_write (fail c, r) e k = absurd (ground (arith, e))

  bytes_after :
      HasState w b old
      → take written_place b ++ (written_bytes ++ drop (written_place + length written_bytes) b)
        ≡ new_bytes
  bytes_after v =
      sym (
        write_at-inside b written_bytes written_place (
          omega (
            arith,
            v.slots,
            length-encode_state_slot (replicate 32 0) h w.broker.state_sequence refl,
          )))
      ∙ ap (λ n. written_slot b n (encode_state_slot (replicate state_slot_bytes 0) h n)) v.sequence

  -- A vote that was persisted is known after a power cut: if `raft.state` is open and has a state in the
  -- slot of the last write, if the broker syncs it and the write of a new state was reported as done,
  -- then the new state is loaded when the power is back, unless the disk fails.
  pub persist-Remembers :
      HasState w b old
      → IsSound w.disk
      → has_path (normalize (state_path w.broker.config.data_dir)) w.disk.dirs ≡ false
      → w.disk.next_id + 2 < 2 ^ 64
      → w.broker.config.fsync_hard_state ≡ true
      → IsU64 h.term
      → IsU32 h.voted_for
      → (persist sim_disk h w).0 ≡ ok tt
      → Remembers h (suc old.sequence) (after_power_cut (persist sim_disk h w).1.disk) (
          load_hard_state sim_disk w.broker.config.data_dir
            (after_power_cut (persist sim_disk h w).1.disk))
  persist-Remembers v sound n room q t u e =
      let st = persist_lem h w q e in
      let d = (pwrite w.broker.state_file written_bytes written_place w.disk).1 in
      let fr = pwrite_frame w.broker.state_file written_place written_bytes w.disk in
      let size = length-encode_state_slot (replicate 32 0) h w.broker.state_sequence refl in
      let a = whole_write _ st.written (
        sim_disk-IsDisk.pwrite-Writes w.broker.state_file written_place written_bytes w.disk _ b
          v.handle v.bytes (omega (arith, v.slots)) (omega (arith, size))) in
      let back =
        fsync-IsBack d w.broker.state_file (state_path w.broker.config.data_dir) _
          ((disk-KeepsSound w.disk sound).written w.broker.state_file written_bytes written_place)
          (a.opens _ _ v.handle) a.stores
          (ap (has_path (normalize (state_path w.broker.config.data_dir))) fr.0 ∙ n)
          (omega (arith, fr.1)) st.synced in
      read_back (after_power_cut (persist sim_disk h w).1.disk)
        (subst (λ r. IsBack (after_power_cut r) (state_path w.broker.config.data_dir) new_bytes)
          (sym st.result)
          (subst (IsBack _ (state_path w.broker.config.data_dir)) (bytes_after v) back))
        (length-write_at b _ _ ∙ v.slots)
        (whole_write_is_read b old v.slots v.decodes (replicate state_slot_bytes 0) h refl t u
          v.counted)
