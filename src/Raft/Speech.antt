-- ===== src/Raft/Speech.antt =====
-- src/raft/node.cpp: each operation on the log and on the followers is quiet in the sense of Quiet.
use log_engine.Prelude.{
  ℕ, min, ◌≡◌, refl, sym, ◌∙◌, true, false, not, List, [], ◌∷◌, map, arith, ltb, leb, if◌then◌else◌,
  if_intro, All, add_u64, assign,
}
use mathlib.Core.List.{append-nil}
use log_engine.Raft.Epochs.{append_epoch}
use log_engine.Raft.Handlers.{
  append_position, entry_extent, cut_conflict, take_entry, adopt_commit, refuse_append,
  confirm_append, accept_append, retry_index, note_confirmed, handle_append_entries_response,
}
use log_engine.Raft.Outbox.{stamped, with_out, send_to_all_lem, caught_up, send_to_caught_up_lem}
use log_engine.Raft.Quiet.{Said, Quiet, Quiet-refl, Quiet-trans, speaks, append_entries-Said}
use log_engine.Raft.Replication.{
  match_end, next_index, advance_commit_index, append_entries_for, send_append_entries, send_to_all,
  send_to_caught_up, log_appended,
}
use log_engine.Raft.State.{Node, is_leader}
use log_engine.Raft.Types.{Role, leader, Message, carries_entry}

append_entries_each-Said :
    (n : Node) (ps : List ℕ)
    → n.role ≡ leader
    → All (Said n.config.id n.hard n.role) (map (λ p. stamped n (append_entries_for p n)) ps)
append_entries_each-Said n [] l = tt
append_entries_each-Said n (p ∷ ps) l = (append_entries-Said n p l, append_entries_each-Said n ps l)

caught_up-Said :
    (index : ℕ) (ps : List ℕ) (n : Node)
    → n.role ≡ leader
    → All (Said n.config.id n.hard n.role) (caught_up index ps n)
unfolding caught_up
caught_up-Said index [] n l = tt
caught_up-Said index (p ∷ ps) n l =
    ground (arith, append_entries-Said n p l, caught_up-Said index ps n l)

pub with_out-Quiet :
    (n : Node) (ms : List Message)
    → All (Said n.config.id n.hard n.role) ms
    → Quiet n (with_out n ms)
with_out-Quiet n ms b = speaks n (with_out n ms) ms refl refl refl refl refl refl b

pub send_to_all-Quiet : (ps : List ℕ) (n : Node) → n.role ≡ leader → Quiet n (send_to_all ps n)
send_to_all-Quiet ps n l =
    rw (send_to_all_lem ps n) (with_out-Quiet n _ (append_entries_each-Said n ps l))

pub send_append_entries-Quiet :
    (p : ℕ) (n : Node) → n.role ≡ leader → Quiet n (send_append_entries p n)
unfolding send_append_entries
send_append_entries-Quiet p n l = with_out-Quiet n _ (append_entries-Said n p l, tt)

send_to_caught_up-Quiet :
    (index : ℕ) (ps : List ℕ) (n : Node) → n.role ≡ leader → Quiet n (send_to_caught_up index ps n)
send_to_caught_up-Quiet index ps n l =
    rw (send_to_caught_up_lem index ps n) (with_out-Quiet n _ (caught_up-Said index ps n l))

-- The fields that count here are left alone.
pub record Untouched (n n' : Node) : Type 0 where
  pub config : n'.config ≡ n.config
  pub hard : n'.hard ≡ n.hard
  pub dirty : n'.hard_state_dirty ≡ n.hard_state_dirty
  pub role : n'.role ≡ n.role
  pub votes : n'.votes ≡ n.votes
  pub out : n'.out ≡ n.out

pub silent : (n n' : Node) → Untouched n n' → Quiet n n'
silent n n' u =
    speaks n n' [] u.config u.hard u.dirty u.role u.votes (u.out ∙ sym (append-nil n.out)) tt

advance_commit_index-Quiet : (n : Node) → Quiet n (advance_commit_index n)
unfolding advance_commit_index
advance_commit_index-Quiet n = silent n _ (ground arith)

leads : (r : Role) → not (is_leader r) ≡ false → r ≡ leader
leads r e = ground arith

pub log_appended-Quiet : (index end term : ℕ) (n : Node) → Quiet n (log_appended index end term n)
unfolding log_appended
log_appended-Quiet index end term n =
    if_intro (Quiet n) (not (is_leader n.role)) m _ (λ _. grown)
      λ e.
        let c : Node = advance_commit_index m in
        let q : Quiet m c = advance_commit_index-Quiet m in
        Quiet-trans n c _ (Quiet-trans n m c grown q)
          (send_to_caught_up-Quiet index c.config.peers c (q.role ∙ leads n.role e))
  where
    m : Node
    m = record (append_epoch term index n) {
      log_end = if ltb index end then end else add_u64 index 1;
      last_term = term;
    }

    grown : Quiet n m
    grown = silent n m (ground arith)

cut_conflict-Quiet : (at term : ℕ) (n : Node) → Quiet n (cut_conflict at term n)
unfolding cut_conflict
cut_conflict-Quiet at term n = silent n _ (ground arith)

pub take_entry-Quiet : (m : Message) (n : Node) → Quiet n (take_entry m n)
unfolding take_entry
take_entry-Quiet m n =
    if_intro (Quiet n) (leb c.log_end (append_position m)) _ c
      (λ _.
        Quiet-trans n d _ (Quiet-trans n c d cut (silent c d (ground arith)))
          (log_appended-Quiet (append_position m) (entry_extent m) m.entry_term d))
      (λ _. cut)
  where
    c : Node
    c = cut_conflict (append_position m) m.entry_term n

    d : Node
    d = record c { pending_append = true }

    cut : Quiet n c
    cut = cut_conflict-Quiet (append_position m) m.entry_term n

pub adopt_commit-Quiet : (c : ℕ) (n : Node) → Quiet n (adopt_commit c n)
unfolding adopt_commit
adopt_commit-Quiet c n = silent n _ (ground arith)

pub accept_append-Quiet : (m : Message) (n : Node) → Quiet n (accept_append m n)
unfolding accept_append confirm_append
accept_append-Quiet m n =
    Quiet-trans n d _ (Quiet-trans n e d taken (adopt_commit-Quiet m.commit_index e))
      (with_out-Quiet d (_ ∷ []) ((refl, refl, tt), tt))
  where
    e : Node
    e = if carries_entry m then take_entry m n else n

    d : Node
    d = adopt_commit m.commit_index e

    taken : Quiet n e
    taken = if_intro (Quiet n) (carries_entry m) _ n (λ _. take_entry-Quiet m n) (λ _. Quiet-refl n)

pub refuse_append-Quiet : (m : Message) (n : Node) → Quiet n (refuse_append m n)
unfolding refuse_append
refuse_append-Quiet m n = with_out-Quiet n (_ ∷ []) ((refl, refl, tt), tt)

pub note_confirmed-Quiet : (p c : ℕ) (n : Node) → Quiet n (note_confirmed p c n)
unfolding note_confirmed match_end next_index
note_confirmed-Quiet p c n = silent n _ (ground arith)

pub handle_append_entries_response-Quiet :
    (m : Message) (n : Node) → Quiet n (handle_append_entries_response m n)
unfolding handle_append_entries_response
handle_append_entries_response-Quiet m n =
    if_intro (Quiet n) (not (is_leader n.role)) n _ (λ _. Quiet-refl n)
      λ e.
        if_intro (Quiet n) (not m.granted) _ _
          (λ _.
            Quiet-trans n r _ (silent n r (ground arith))
              (send_append_entries-Quiet m.from r (leads n.role e)))
          λ _.
            if_intro (Quiet n) (ltb (next_index c m.from) c.log_end) _ c
              (λ _.
                Quiet-trans n c _ confirmed
                  (send_append_entries-Quiet m.from c (confirmed.role ∙ leads n.role e)))
              (λ _. confirmed)
  where
    r : Node
    r = record n { next_indexes = assign m.from (retry_index m n) n.next_indexes }

    d : Node
    d = note_confirmed m.from (min m.log_index n.log_end) n

    c : Node
    c = advance_commit_index d

    confirmed : Quiet n c
    confirmed =
        Quiet-trans n d c (note_confirmed-Quiet m.from (min m.log_index n.log_end) n)
          (advance_commit_index-Quiet d)
