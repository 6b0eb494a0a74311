-- ===== src/Raft/Epochs.antt =====
-- src/raft/node.cpp: what the node knows of the log without holding an entry, its end and its
-- epochs.
use log_engine.Prelude.{
  ℕ, ◌-◌, Bool, List, [], ◌∷◌, Option, none, some, ltb, leb, ◌==◌, if◌then◌else◌,
}
use mathlib.Core.List.{reverse}
use log_engine.Raft.Types.{Epoch, no_term}
use log_engine.Raft.State.{Node}

unfoldable pub log_is_up_to_date : Node → ℕ → ℕ → Bool
log_is_up_to_date n end term =
    if term == n.last_term then leb n.log_end end else ltb n.last_term term

-- `std::prev(upper_bound(...))`: the last epoch whose start is not past the index.
unfoldable pub epoch_of : List Epoch → ℕ → Option Epoch
epoch_of [] index = none
epoch_of (e ∷ es) index = if leb e.start index then some e else epoch_of es index

abbrev pub term_or_none : Option Epoch → ℕ
term_or_none none = no_term
term_or_none (some e) = e.term

unfoldable pub term_at : Node → ℕ → ℕ
unfolding epoch_of
term_at n index = if leb n.log_end index then no_term else term_or_none (epoch_of n.epochs index)

-- `epochs_.front().start`, and 0 where there is no epoch.
unfoldable pub front_start : List Epoch → ℕ
front_start [] = 0
front_start (e ∷ []) = e.start
front_start (e ∷ d ∷ es) = front_start (d ∷ es)

abbrev pub start_or : ℕ → Option Epoch → ℕ
start_or d none = d
start_or d (some e) = e.start

unfoldable pub epoch_start_at : Node → ℕ → ℕ
unfolding epoch_of front_start
epoch_start_at n index = start_or (front_start n.epochs) (epoch_of n.epochs index)

unfoldable pub add_epoch : List Epoch → ℕ → ℕ → List Epoch
add_epoch [] term start = record { term = term; start = start } ∷ []
add_epoch (e ∷ es) term start =
    if e.term == term then e ∷ es else record { term = term; start = start } ∷ e ∷ es

unfoldable pub append_epoch : ℕ → ℕ → Node → Node
unfolding add_epoch
append_epoch term start n = record n { epochs = add_epoch n.epochs term start }

unfoldable pub drop_epochs : List Epoch → ℕ → List Epoch
drop_epochs [] index = []
drop_epochs (e ∷ es) index = if leb index e.start then drop_epochs es index else e ∷ es

unfoldable pub truncate_epochs_from : ℕ → Node → Node
unfolding drop_epochs
truncate_epochs_from index n = record n { epochs = drop_epochs n.epochs index }

-- `log_end_ == 0 ? kNoTerm : term_at(log_end_ - 1)`
unfoldable pub tail_term : Node → ℕ
unfolding term_at
tail_term n = if n.log_end == 0 then no_term else term_at n (n.log_end - 1)

-- The argument is in ascending order, as the driver reads it off the log.
unfoldable pub restore_log : ℕ → List Epoch → Node → Node
unfolding tail_term
restore_log end epochs n =
    let m : Node = record n { log_end = end; epochs = reverse epochs } in
    record m {
      last_term = tail_term m;
      commit_index = if ltb end m.commit_index then end else m.commit_index;
    }
