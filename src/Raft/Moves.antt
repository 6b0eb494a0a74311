-- ===== src/Raft/Moves.antt =====
-- src/raft/node.cpp: what every operation does to the term, the vote and the outbox.
use log_engine.Prelude.{
  ◌<◌, ◌≡◌, refl, sym, ap, subst, ◌∙◌, ◌⊎◌, inl, inr, true, List, [], ◌++◌, arith, All,
}
use mathlib.Core.List.{append-nil, append_assoc}
use log_engine.Raft.Quiet.{Said, Quiet, All-append}
use log_engine.Raft.State.{Node}
use log_engine.Raft.Types.{no_node, HardState, Message}

-- Time goes on, or the term stays and a vote that was cast stays.
abbrev pub Follows : HardState → HardState → Type 0
Follows h h' =
    (h.term < h'.term)
    ⊎ ((h'.term ≡ h.term) × ((h.voted_for ≡ no_node) ⊎ (h'.voted_for ≡ h.voted_for)))

-- A change of the hard state leaves the node in debt, and a debt stays.
abbrev pub Owes : Node → Node → Type 0
Owes n n' =
    (n'.hard_state_dirty ≡ true) ⊎ ((n'.hard ≡ n.hard) × (n'.hard_state_dirty ≡ n.hard_state_dirty))

pub record Move (n n' : Node) : Type 0 where
  pub config : n'.config ≡ n.config
  pub follows : Follows n.hard n'.hard
  pub owes : Owes n n'
  pub said : List Message
  pub out : n'.out ≡ n.out ++ said
  pub backed : All (Said n'.config.id n'.hard n'.role) said

pub Follows-refl : (h : HardState) → Follows h h
Follows-refl h = inr (refl, inr refl)

pub Follows-trans : (a b c : HardState) → Follows a b → Follows b c → Follows a c
Follows-trans a b c p q = ground arith

Owes-trans : (a b c : Node) → Owes a b → Owes b c → Owes a c
Owes-trans a b c p (inl d) = inl d
Owes-trans a b c (inl d) (inr q) = inl (q.1 ∙ d)
Owes-trans a b c (inr p) (inr q) = inr (q.0 ∙ p.0, q.1 ∙ p.1)

pub Move-then-Quiet : (a b c : Node) → Move a b → Quiet b c → Move a c
Move-then-Quiet a b c p q = record {
  config = q.config ∙ p.config;
  follows = subst (Follows a.hard) (sym q.hard) p.follows;
  owes = Owes-trans a b c p.owes (inr (q.hard, q.dirty));
  said = p.said ++ q.said;
  out = q.out ∙ ap (λ o. o ++ q.said) p.out ∙ append_assoc a.out p.said q.said;
  backed = rw (q.config, q.hard, q.role) (All-append _ p.said q.said p.backed q.backed);
}

-- A change that says nothing.
pub record Hushed (n n' : Node) : Type 0 where
  pub config : n'.config ≡ n.config
  pub follows : Follows n.hard n'.hard
  pub owes : Owes n n'
  pub out : n'.out ≡ n.out

pub mute : (n n' : Node) → Hushed n n' → Move n n'
mute n n' h = record {
  config = h.config;
  follows = h.follows;
  owes = h.owes;
  said = [];
  out = h.out ∙ sym (append-nil n.out);
  backed = tt;
}

pub Move-refl : (n : Node) → Move n n
Move-refl n =
    mute n n
      (record { config = refl; follows = Follows-refl n.hard; owes = inr (refl, refl); out = refl })

pub mute-then-Move : (a b c : Node) → Hushed a b → Move b c → Move a c
mute-then-Move a b c h m = record {
  config = m.config ∙ h.config;
  follows = Follows-trans a.hard b.hard c.hard h.follows m.follows;
  owes = Owes-trans a b c h.owes m.owes;
  said = m.said;
  out = m.out ∙ ap (λ x. x ++ m.said) h.out;
  backed = m.backed;
}
