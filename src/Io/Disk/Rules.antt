-- ===== src/Io/Disk/Rules.antt =====
-- src/io/disk.h: how a program over the disk is followed from call to call by the laws.
use log_engine.Prelude.{ℕ, ◌+◌, ◌≤◌, ◌≡◌, refl, sym, subst, ◌≢◌, List, ◌++◌, length, take, drop}
use native.Mathlib.Decide.{ℕ_discrete}
use log_engine.Base.Error.{ErrorCode, Result, ok, fail, Status}
use log_engine.Io.Disk.{Disk, Run, carry_on}
use log_engine.Io.Disk.Laws.{View, Keeps, Alters, Reads, Spoils, Writes, Cuts, IsDisk}

-- What a program that holds does when it is continued.
pub bind_lem {κ} :
    {S A B : Type 0} (P : Result B × S → Type κ) (m : Result A × S) (f : A → Run S B)
    → ((a : A) → m.0 ≡ ok a → P (f a m.1))
    → ((c : ErrorCode) → m.0 ≡ fail c → P (fail c, m.1))
    → P (carry_on m f)
bind_lem P (ok a, s) f h g = h a refl
bind_lem P (fail c, s) f h g = g c refl

module _ {D : Disk} {V : View D} where
  pub Keeps-refl : (s : D.State) → Keeps V s s
  Keeps-refl s = record { opens = λ id p h. h; stores = λ p b h. h; health = λ h. h }

  pub Keeps-trans : {s r t : D.State} → Keeps V s r → Keeps V r t → Keeps V s t
  Keeps-trans k l = record {
    opens = λ id p h. l.opens id p (k.opens id p h);
    stores = λ p b h. l.stores p b (k.stores p b h);
    health = λ h. l.health (k.health h);
  }

  -- What a program that reads a file does next, it does with the bytes of the file.
  pub pread_rule {κ} :
      {B : Type 0}
      → IsDisk V
      → (P : Result B × D.State → Type κ) (id count pos : ℕ) (s : D.State) (p b : List ℕ)
        (f : List ℕ → Run D.State B)
      → V.Opens s id p
      → V.Stores s p b
      → ((r : D.State) → Keeps V s r → P (f (take count (drop pos b)) r))
      → ((c : ErrorCode) (r : D.State) → Keeps V s r → ¬ V.IsHealthy s → P (fail c, r))
      → P (carry_on (D.pread id count pos s) f)
  pread_rule L P id count pos s p b f o t h e =
      let k = L.pread-Keeps id count pos s in
      let w = L.pread-Reads id count pos s p b o t in
      bind_lem P (D.pread id count pos s) f
        (λ got q.
          subst (λ x. P (f x (D.pread id count pos s).1)) (sym (subst (Reads V s b count pos) q w))
            (h _ k))
        (λ c q. e c _ k (subst (Reads V s b count pos) q w))

  pub Keeps-Alters :
      (s r : D.State) (p b : List ℕ) → Keeps V s r → V.Stores s p b → Alters V s r p b
  Keeps-Alters s r p b k t = record {
    opens = k.opens;
    others = λ q c d. k.stores q c;
    stores = k.stores p b t;
    health = k.health;
  }

  pub truncate_rule {κ} :
      {B : Type 0}
      → IsDisk V
      → (P : Result B × D.State → Type κ) (id size : ℕ) (s : D.State) (p b : List ℕ)
        (f : Unit {0} → Run D.State B)
      → V.Opens s id p
      → V.Stores s p b
      → size ≤ length b
      → ((r : D.State) → Alters V s r p (take size b) → P (f tt r))
      → ((c : ErrorCode) (r : D.State) → Keeps V s r → ¬ V.IsHealthy s → P (fail c, r))
      → P (carry_on (D.truncate id size s) f)
  truncate_rule L P id size s p b f o t h g e =
      cases (D.truncate id size s) (L.truncate-Cuts id size s p b o t h)
    where
      cases : (m : Status × D.State) → Cuts V s p b size m → P (carry_on m f)
      cases (ok u, r) w = g r w
      cases (fail c, r) w = e c r w.0 w.1

  pub Keeps-then-Alters :
      {s r t : D.State} (p b : List ℕ) → Keeps V s r → Alters V r t p b → Alters V s t p b
  Keeps-then-Alters p b k a = record {
    opens = λ id q h. a.opens id q (k.opens id q h);
    others = λ q c d h. a.others q c d (k.stores q c h);
    stores = a.stores;
    health = λ h. a.health (k.health h);
  }

  pub pwrite_rule {κ} :
      {B : Type 0}
      → IsDisk V
      → (P : Result B × D.State → Type κ) (id pos : ℕ) (new : List ℕ) (s : D.State) (p b : List ℕ)
        (f : ℕ → Run D.State B)
      → V.Opens s id p
      → V.Stores s p b
      → pos ≤ length b
      → pos + length new ≤ V.limit
      → ((r : D.State)
          → Alters V s r p (take pos b ++ (new ++ drop (pos + length new) b))
          → P (f (length new) r))
      → ((n : ℕ) (r : D.State)
          → n ≢ length new
          → Spoils V s r p b pos
          → ¬ V.IsHealthy s
          → P (f n r))
      → ((c : ErrorCode) (r : D.State) → Spoils V s r p b pos → ¬ V.IsHealthy s → P (fail c, r))
      → P (carry_on (D.pwrite id new pos s) f)
  pwrite_rule L P id pos new s p b f o t h l whole short e =
      cases (D.pwrite id new pos s) (L.pwrite-Writes id pos new s p b o t h l)
    where
      cases : (m : Result ℕ × D.State) → Writes V s p b new pos m → P (carry_on m f)
      cases (ok n, r) w = elim (ℕ_discrete n (length new)) [
        | yes q ↦ subst (λ x. P (f x r)) (sym q) (whole r (w.0 q))
        | no q ↦ short n r q w.1 (λ x. q (w.2 x))
      ]
      cases (fail c, r) w = e c r w.0 w.1
