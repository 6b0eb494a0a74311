-- ===== src/Storage/FileNames/RoundTrip.antt =====
-- src/storage/segment.cpp: a name is parsed back to the offset that it was made from.
use log_engine.Prelude.{
  ℕ, zero, suc, ◌+◌, ◌*◌, ◌/◌, ◌%◌, ◌^◌, ◌<◌, ◌≡◌, refl, sym, ap, ◌∙◌, inl, inr, false, ◌||◌, List,
  [], ◌∷◌, ◌++◌, arith, ltb, lt→ltb, Bool-cases, length, take, drop, replicate, write_at,
  length-append, take_front, drop_front, IsU64,
}
use mathlib.Core.List.{append-nil, append_assoc}
use native.Mathlib.Nat.{pow-suc}
use log_engine.Base.Error.{ok}
use log_engine.Io.Paths.{same_path}
use log_engine.Storage.FileNames.{
  offset_digits, zero_digit, nine_digit, log_suffix, put_digits, offset_to_name, log_name,
  parse_digits, parse_log_name,
}

-- The `n` lowest decimal digits, the highest first.
pad : ℕ → ℕ → List ℕ
pad zero v = []
pad (suc n) v = pad n (v / 10) ++ ((zero_digit + v % 10) ∷ [])

replicate-front : (n : ℕ) (c : ℕ) (t : List ℕ) → replicate (suc n) c ++ t ≡ replicate n c ++ (c ∷ t)
replicate-front zero c t = refl
replicate-front (suc n) c t = ap (λ l. c ∷ l) (replicate-front n c t)

write_behind :
    (n c d : ℕ) (t : List ℕ)
    → write_at (replicate n c ++ (c ∷ t)) n (d ∷ []) ≡ replicate n c ++ (d ∷ t)
write_behind zero c d t = behind t
  where
    behind : (t : List ℕ) → write_at (c ∷ t) 0 (d ∷ []) ≡ d ∷ t
    behind [] = refl
    behind (x ∷ t) = refl
write_behind (suc n) c d t = ap (λ l. c ∷ l) (write_behind n c d t)

pad-zero : (n : ℕ) (t : List ℕ) → pad n 0 ++ t ≡ replicate n zero_digit ++ t
unfolding pad
pad-zero zero t = refl
pad-zero (suc n) t =
    append_assoc (pad n 0) (zero_digit ∷ []) t
    ∙ pad-zero n (zero_digit ∷ t)
    ∙ sym (replicate-front n zero_digit t)

put_digits_lem :
    (n v : ℕ) (t : List ℕ) → put_digits n v (replicate n zero_digit ++ t) ≡ pad n v ++ t
unfolding put_digits pad
put_digits_lem zero v t = refl
put_digits_lem (suc n) zero t = sym (pad-zero (suc n) t)
put_digits_lem (suc n) (suc v) t = rw (lt→ltb 0 (suc v) (omega arith)) (
    ap (λ l. put_digits n (suc v / 10) (write_at l n ((zero_digit + suc v % 10) ∷ [])))
      (replicate-front n zero_digit t)
    ∙ ap (put_digits n (suc v / 10)) (write_behind n zero_digit (zero_digit + suc v % 10) t)
    ∙ put_digits_lem n (suc v / 10) ((zero_digit + suc v % 10) ∷ t)
    ∙ sym (append_assoc (pad n (suc v / 10)) ((zero_digit + suc v % 10) ∷ []) t))

parse_digits-snoc :
    (cs : List ℕ) (d acc v : ℕ)
    → parse_digits cs acc ≡ ok v
    → d < 10
    → parse_digits (cs ++ ((zero_digit + d) ∷ [])) acc ≡ ok ((v * 10 + d) % 2 ^ 64)
unfolding parse_digits
parse_digits-snoc [] d acc v e h =
    let t : (ltb (zero_digit + d) zero_digit || ltb nine_digit (zero_digit + d)) ≡ false =
      ground arith in
    rw t (ground arith)
parse_digits-snoc (c ∷ cs) d acc v e h = elim (Bool-cases (ltb c zero_digit || ltb nine_digit c)) [
  | inl b ↦ absurd (ground (arith, rw b at e))
  | inr b ↦ rw b (parse_digits-snoc cs d _ v (rw b at e) h)
]

length-pad : (n v : ℕ) → length (pad n v) ≡ n
unfolding pad
length-pad zero v = refl
length-pad (suc n) v =
    omega
      (arith, length-append (pad n (v / 10)) ((zero_digit + v % 10) ∷ []), length-pad n (v / 10))

parse_digits-pad : (n v : ℕ) → v < 10 ^ n → v < 2 ^ 64 → parse_digits (pad n v) 0 ≡ ok v
unfolding parse_digits pad
parse_digits-pad zero v h b = ap ok (omega arith)
parse_digits-pad (suc n) v h b =
    parse_digits-snoc (pad n (v / 10)) (v % 10) 0 (v / 10)
      (parse_digits-pad n (v / 10) (omega (arith, pow-suc 10 n)) (omega arith)) (omega arith)
    ∙ ap ok (omega arith)

log_name_lem : (v : ℕ) → log_name v ≡ pad offset_digits v ++ log_suffix
unfolding log_name offset_to_name
log_name_lem v =
    ap (λ l. l ++ log_suffix)
      (ap (put_digits 20 v) (sym (append-nil (replicate 20 zero_digit)))
        ∙ put_digits_lem 20 v []
        ∙ append-nil (pad 20 v))

-- The name of a segment's log file is parsed back to its base offset, a 64-bit number.
pub parse_log_name-log_name : (v : ℕ) → IsU64 v → parse_log_name (log_name v) ≡ ok v
unfolding parse_log_name same_path
parse_log_name-log_name v h =
    rw (log_name_lem v, long, behind, digits) (parse_digits-pad 20 v (omega arith) h)
  where
    long : length (pad 20 v ++ log_suffix) ≡ 24
    long = omega (arith, length-append (pad 20 v) log_suffix, length-pad 20 v)

    behind : drop 20 (pad 20 v ++ log_suffix) ≡ log_suffix
    behind =
        ap (λ n. drop n (pad 20 v ++ log_suffix)) (sym (length-pad 20 v))
        ∙ drop_front (pad 20 v) log_suffix

    digits : take 20 (pad 20 v ++ log_suffix) ≡ pad 20 v
    digits =
        ap (λ n. take n (pad 20 v ++ log_suffix)) (sym (length-pad 20 v))
        ∙ take_front (pad 20 v) log_suffix
