-- ===== src/Storage/Log/Chain.antt =====
-- src/storage/log.h: the segments of a log continue one another, whatever the disk does.
use log_engine.Prelude.{ℕ, ◌≡◌, refl, sym, ◌∙◌, List, [], ◌∷◌}
use log_engine.Storage.Log.{Log, push_segment}
use log_engine.Storage.Log.Open.{oldest}
use log_engine.Storage.Segment.{Segment}

-- Each segment starts where the one before it ends.
abbrev pub IsChain : Segment → List Segment → Type 0
IsChain g [] = Unit {0}
IsChain g (h ∷ hs) = (g.base_offset ≡ h.next_offset) × IsChain h hs

pub record IsChained (l : Log) : Type 0 where
  pub chain : IsChain l.active l.older
  pub start : l.start_offset ≡ (oldest l.active l.older).base_offset

-- The next offset of the log is that of its active segment.
abbrev pub IsSettled : Log → Type 0
IsSettled l = l.next_offset ≡ l.active.next_offset

pub IsChain-same :
    (g h : Segment) (hs : List Segment)
    → h.base_offset ≡ g.base_offset
    → IsChain g hs
    → IsChain h hs
IsChain-same g h [] e c = tt
IsChain-same g h (k ∷ hs) e c = (e ∙ c.0, c.1)

pub oldest_same :
    (g h : Segment) (hs : List Segment)
    → h.base_offset ≡ g.base_offset
    → (oldest h hs).base_offset ≡ (oldest g hs).base_offset
oldest_same g h [] e = e
oldest_same g h (k ∷ hs) e = refl

-- The active segment, changed behind its start.
pub IsChained-active :
    (l : Log) (g : Segment) (n : ℕ)
    → IsChained l
    → g.base_offset ≡ l.active.base_offset
    → IsChained (record l { active = g; next_offset = n })
IsChained-active l g n c e = record {
  chain = IsChain-same l.active g l.older e c.chain;
  start = c.start ∙ sym (oldest_same l.active g l.older e);
}

pub IsChained-push :
    (l : Log) (g : Segment)
    → IsChained l
    → IsSettled l
    → g.base_offset ≡ l.next_offset
    → IsChained (push_segment g l)
IsChained-push l g c s e = record { chain = (e ∙ s, c.chain); start = c.start }
