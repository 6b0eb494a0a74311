-- ===== src/Io/Disk.antt =====
-- src/io/disk.h: the interface of the disk, over an unknown state. A call returns its result and the
-- state after it; a read returns the bytes that it copies out.
pub mod Laws
pub mod Rules
use log_engine.Prelude.{ℕ, List}
use log_engine.Base.Error.{ErrorCode, Result, ok, fail, Status}

pub data OpenMode : Type 0 where
  mode_read mode_read_write mode_create : OpenMode

pub record Disk : Type 1 where
  pub State : Type 0
  pub open_file : List ℕ → OpenMode → State → Result ℕ × State
  pub close : ℕ → State → State
  pub pwrite : ℕ → List ℕ → ℕ → State → Result ℕ × State
  pub pread : ℕ → ℕ → ℕ → State → Result (List ℕ) × State
  pub fsync : ℕ → State → Status × State
  pub truncate : ℕ → ℕ → State → Status × State
  pub file_size : ℕ → State → Result ℕ
  pub remove : List ℕ → State → Status × State
  pub make_directories : List ℕ → State → Status × State
  pub list_directory : List ℕ → State → Result (List (List ℕ))

-- A call that may fail, on a state. A failure leaves out what follows.
abbrev pub Run : Type 0 → Type 0 → Type 0
Run S A = S → Result A × S

abbrev pub pure : {S A : Type 0} → A → Run S A
pure a s = (ok a, s)

abbrev pub refuse : {S A : Type 0} → ErrorCode → Run S A
refuse c s = (fail c, s)

abbrev pub carry_on : {S A B : Type 0} → Result A × S → (A → Run S B) → Result B × S
carry_on (ok a, s) f = f a s
carry_on (fail c, s) f = (fail c, s)

infixl 5 ◌>>=◌ ◌>>◌
abbrev pub ◌>>=◌ : {S A B : Type 0} → Run S A → (A → Run S B) → Run S B
◌>>=◌ m f s = carry_on (m s) f

abbrev pub ◌>>◌ : {S B : Type 0} → Run S (Unit {0}) → Run S B → Run S B
m >> k = m >>= λ _. k

-- The result is looked at, whatever it is.
abbrev pub attempt : {S A : Type 0} → Run S A → Run S (Result A)
attempt m s = let r = m s in (ok r.0, r.1)

-- A call that does not change the state, and one that returns nothing.
abbrev pub ask : {S A : Type 0} → (S → Result A) → Run S A
ask f s = (f s, s)

abbrev pub perform : {S : Type 0} → (S → S) → Run S (Unit {0})
perform f s = (ok tt, f s)

-- A result that is at hand.
abbrev pub lift : {S A : Type 0} → Result A → Run S A
lift r s = (r, s)
