-- ===== src/Storage/Batches/Longest.antt =====
-- The batches at the start of a file are determined by its bytes.
use log_engine.Storage.RecordBatch.{next_offset as offset_after}
use log_engine.Prelude.{ℕ, suc, ◌+◌, ◌≤◌, ◌<◌, ◌≡◌, refl, sym, ap, subst, ◌∙◌, List, arith}
use native.Mathlib.Decide.{dec_lt, ℕ_discrete, dec_le}
use log_engine.Storage.Batches.{BatchAt, Batches, no_batch, one_more, Ends}
use log_engine.Storage.Batches.Header.{decode_header_bounds}
use log_engine.Storage.RecordBatch.{BatchHeader, total_bytes}

one_header :
    {b : List ℕ} {pos pos' expect expect' : ℕ} (h k : BatchHeader)
    → pos ≡ pos'
    → BatchAt b pos expect h
    → BatchAt b pos' expect' k
    → h ≡ k
one_header h k e a c = cc (e, a.decodes, c.decodes)

-- A batch stands where it stands.
moved_batch :
    {b : List ℕ} {pos pos' expect expect' : ℕ} {h : BatchHeader}
    → pos ≡ pos'
    → expect ≡ expect'
    → BatchAt b pos expect h
    → BatchAt b pos' expect' h
moved_batch {b} {pos} {expect' = expect'} {h} e f a =
    subst (λ x. BatchAt b x expect' h) e (subst (λ y. BatchAt b pos y h) f a)

module _ {b : List ℕ} {base : ℕ} where
  -- How many batches there are.
  count_batches : {pos expect : ℕ} → Batches b base pos expect → ℕ
  count_batches (no_batch p e) = 0
  count_batches (one_more r h a p e) = suc (count_batches r)

  same_end :
      {pos expect pos' expect' : ℕ} (c : Batches b base pos expect)
      (d : Batches b base pos' expect')
      → count_batches c ≡ count_batches d
      → (pos ≡ pos') × (expect ≡ expect')
  unfolding count_batches
  same_end (no_batch p e) (no_batch q f) n = (p ∙ sym q, e ∙ sym f)
  same_end (no_batch p e) (one_more r h a q f) n = absurd (omega arith)
  same_end (one_more r h a p e) (no_batch q f) n = absurd (omega arith)
  same_end (one_more r h a p e) (one_more s k c q f) n =
      let (x, y) = same_end r s (omega arith) in
      let w = one_header h k x a c in
      (omega (arith, ap (λ z. total_bytes z) w), e ∙ ap (λ z. offset_after z) w ∙ sym f)

-- The batch that follows the first `n` of them.
record Follows (b : List ℕ) (base n : ℕ) : Type 0 where
  pos : ℕ
  expect : ℕ
  header : BatchHeader
  before : Batches b base pos expect
  counted : count_batches before ≡ n
  here : BatchAt b pos expect header

module _ {b : List ℕ} {base : ℕ} where
  follows_first :
      {pos expect : ℕ} (c : Batches b base pos expect) (n : ℕ)
      → n < count_batches c
      → Follows b base n
  unfolding count_batches
  follows_first (no_batch p e) n h = absurd (omega arith)
  follows_first (one_more r k a p e) n h = elim (dec_lt n (count_batches r)) [
    | yes q ↦ follows_first r n q
    | no q ↦ record { pos = _; expect = _; header = k; before = r; counted = omega arith; here = a }
  ]

  fewer_shorter :
      {pos expect pos' expect' : ℕ} (c : Batches b base pos expect)
      (d : Batches b base pos' expect')
      → count_batches c ≤ count_batches d
      → pos ≤ pos'
  unfolding count_batches
  fewer_shorter c (no_batch q f) n =
      let (x, _) = same_end c (no_batch q f) (omega arith) in omega arith
  fewer_shorter c (one_more s k a q f) n = elim (dec_le (count_batches c) (count_batches s)) [
    | yes h ↦ omega (arith, fewer_shorter c s h)
    | no h ↦ let (x, _) = same_end c (one_more s k a q f) (omega arith) in omega arith
  ]

  -- More batches reach further.
  no_longer :
      {pos expect expect' : ℕ} (c : Batches b base pos expect) (d : Batches b base pos expect')
      → count_batches c < count_batches d
      → ⊥
  unfolding count_batches
  no_longer c d l =
      let f = follows_first d (count_batches c) l in
      let (x, y) = same_end f.before c f.counted in
      let a = moved_batch x y f.here in
      let w = fewer_shorter (one_more c f.header a refl refl) d (omega arith) in
      let t = decode_header_bounds _ f.header a.decodes in absurd (omega arith)

  -- Where no batch follows, there are the most of them.
  pub Batches-longest :
      {pos expect pos' expect' : ℕ}
      → Batches b base pos expect
      → Batches b base pos' expect'
      → Ends b pos' expect'
      → pos ≤ pos'
  Batches-longest c d e = elim (dec_le (count_batches c) (count_batches d)) [
    | yes h ↦ fewer_shorter c d h
    | no h ↦
        let f = follows_first c (count_batches d) (omega arith) in
        let (x, y) = same_end f.before d f.counted in absurd (e f.header (moved_batch x y f.here))
  ]

  -- Inside the batches another one follows, and ends inside them.
  pub Batches-next :
      {pos expect pos' expect' : ℕ}
      → Batches b base pos expect
      → Batches b base pos' expect'
      → pos < pos'
      → (h : BatchHeader) × BatchAt b pos expect h × (pos + total_bytes h ≤ pos')
  unfolding count_batches
  Batches-next c d l = elim (dec_le (count_batches d) (count_batches c)) [
    | yes h ↦ let w = fewer_shorter d c h in absurd (omega arith)
    | no h ↦
        let f = follows_first d (count_batches c) (omega arith) in
        let (x, y) = same_end f.before c f.counted in
        let a = moved_batch x y f.here in
        (f.header, a, fewer_shorter (one_more c f.header a refl refl) d (omega arith))
  ]

  -- The offsets are those of the position.
  pub Batches-offset :
      {pos expect expect' : ℕ}
      → Batches b base pos expect
      → Batches b base pos expect'
      → expect ≡ expect'
  Batches-offset c d = elim (ℕ_discrete (count_batches c) (count_batches d)) [
    | yes h ↦ (same_end c d h).1
    | no h ↦ elim (dec_lt (count_batches c) (count_batches d)) [
      | yes k ↦ absurd (no_longer c d k)
      | no k ↦ absurd (no_longer d c (omega arith))
    ]
  ]
