-- ===== src/Io/Paths.antt =====
-- src/io/sim/sim_disk.cpp: paths, and the maps and sets whose keys they are.
pub mod Find
use log_engine.Prelude.{
  ℕ, suc, Bool, true, false, ◌&&◌, ◌||◌, Option, none, some, List, [], ◌∷◌, ltb, ◌==◌,
  if◌then◌else◌, take, drop,
}
use mathlib.Core.List.{reverse}

abbrev pub slash : ℕ
slash = 47

unfoldable pub same_path : List ℕ → List ℕ → Bool
same_path [] [] = true
same_path [] (b ∷ q) = false
same_path (a ∷ p) [] = false
same_path (a ∷ p) (b ∷ q) = (a == b) && same_path p q

-- The order of `std::string`.
unfoldable pub path_before : List ℕ → List ℕ → Bool
path_before p [] = false
path_before [] (b ∷ q) = true
path_before (a ∷ p) (b ∷ q) = if a == b then path_before p q else ltb a b

abbrev pub strip_slashes : List ℕ → List ℕ
strip_slashes [] = []
strip_slashes (c ∷ []) = c ∷ []
strip_slashes (c ∷ d ∷ cs) = if c == slash then strip_slashes (d ∷ cs) else c ∷ d ∷ cs

-- Trailing slashes go, from the back.
unfoldable pub normalize : List ℕ → List ℕ
normalize p = reverse (strip_slashes (reverse p))

abbrev pub later_slash : ℕ → Option ℕ → Option ℕ
later_slash c (some i) = some (suc i)
later_slash c none = if c == slash then some 0 else none

-- `path.rfind('/')`
unfoldable pub rfind_slash : List ℕ → Option ℕ
rfind_slash [] = none
rfind_slash (c ∷ cs) = later_slash c (rfind_slash cs)

unfoldable pub parent_of : List ℕ → List ℕ
parent_of p = elim (rfind_slash p) [ none ↦ [] | some i ↦ if i == 0 then slash ∷ [] else take i p ]

unfoldable pub basename_of : List ℕ → List ℕ
basename_of p = elim (rfind_slash p) [ none ↦ p | some i ↦ drop (suc i) p ]

unfoldable pub has_path : List ℕ → List (List ℕ) → Bool
has_path p [] = false
has_path p (q ∷ qs) = same_path q p || has_path p qs

unfoldable pub insert_path : List ℕ → List (List ℕ) → List (List ℕ)
insert_path p [] = p ∷ []
insert_path p (q ∷ qs) =
    if path_before p q then p ∷ q ∷ qs else if same_path q p then q ∷ qs else q ∷ insert_path p qs

abbrev pub is_found {ℓ} : {A : Type ℓ} → Option A → Bool
is_found none = false
is_found (some a) = true

module _ {ℓ} {V : Type ℓ} where
  unfoldable pub find_path : List ℕ → List (List ℕ × V) → Option V
  find_path p [] = none
  find_path p ((q, v) ∷ m) = if same_path q p then some v else find_path p m

  unfoldable pub put_path : List ℕ → V → List (List ℕ × V) → List (List ℕ × V)
  put_path p v [] = (p, v) ∷ []
  put_path p v ((q, w) ∷ m) =
      if path_before p q
      then (p, v) ∷ (q, w) ∷ m
      else if same_path q p
      then (p, v) ∷ m
      else (q, w) ∷ put_path p v m

  unfoldable pub change_path : List ℕ → (V → V) → List (List ℕ × V) → List (List ℕ × V)
  change_path p g [] = []
  change_path p g ((q, v) ∷ m) = if same_path q p then (q, g v) ∷ m else (q, v) ∷ change_path p g m

  unfoldable pub erase_path : List ℕ → List (List ℕ × V) → List (List ℕ × V)
  erase_path p [] = []
  erase_path p ((q, v) ∷ m) = if same_path q p then m else (q, v) ∷ erase_path p m

  unfoldable pub erase_key : ℕ → List (ℕ × V) → List (ℕ × V)
  erase_key k [] = []
  erase_key k ((j, v) ∷ m) = if j == k then m else (j, v) ∷ erase_key k m
