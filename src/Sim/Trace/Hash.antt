-- ===== src/Sim/Trace/Hash.antt =====
-- src/sim/trace.cpp: two runs whose hashes differ do not agree again on the same events.
use log_engine.Prelude.{
  ℕ, zero, suc, ◌*◌, ◌/◌, ◌%◌, ◌^◌, ◌<◌, ◌≡◌, refl, sym, ap, ◌∙◌, List, [], ◌∷◌, arith,
}
use Prim.Native.Nat.{bit_xor}
use log_engine.Prelude.Xor.{bit_xor_cancel, bit_xor-lt}
use log_engine.Sim.Trace.{
  kind_number, TraceEvent, fnv_prime, mix_byte, mix_bytes, mix, hash_event, Trace, record_event,
  record_all,
}

-- The prime is odd, so the product can be taken apart.
times_prime_inj :
    (x y : ℕ) → x < 2 ^ 64 → y < 2 ^ 64 → x * fnv_prime % 2 ^ 64 ≡ y * fnv_prime % 2 ^ 64 → x ≡ y
times_prime_inj x y p q e = omega arith

mix_byte-lt : (h b : ℕ) → mix_byte h b < 2 ^ 64
unfolding mix_byte
mix_byte-lt h b = omega arith

mix_byte_inj :
    (h k b : ℕ) → h < 2 ^ 64 → k < 2 ^ 64 → b < 2 ^ 64 → mix_byte h b ≡ mix_byte k b → h ≡ k
unfolding mix_byte
mix_byte_inj h k b p q r e =
    sym (bit_xor_cancel h b)
    ∙ ap (λ t. bit_xor t b)
        (times_prime_inj (bit_xor h b) (bit_xor k b) (bit_xor-lt 64 h b p r) (bit_xor-lt 64 k b q r)
          e)
    ∙ bit_xor_cancel k b

mix_bytes-lt : (n h v : ℕ) → h < 2 ^ 64 → mix_bytes n h v < 2 ^ 64
unfolding mix_bytes
mix_bytes-lt zero h v p = p
mix_bytes-lt (suc n) h v p =
    mix_bytes-lt n (mix_byte h (v % 256)) (v / 256) (mix_byte-lt h (v % 256))

mix_bytes_inj : (n h k v : ℕ) → h < 2 ^ 64 → k < 2 ^ 64 → mix_bytes n h v ≡ mix_bytes n k v → h ≡ k
unfolding mix_bytes
mix_bytes_inj zero h k v p q e = e
mix_bytes_inj (suc n) h k v p q e = mix_byte_inj h k (v % 256) p q (omega arith) (
    mix_bytes_inj n (mix_byte h (v % 256)) (mix_byte k (v % 256)) (v / 256)
      (mix_byte-lt h (v % 256)) (mix_byte-lt k (v % 256)) e)

mix-lt : (h v : ℕ) → h < 2 ^ 64 → mix h v < 2 ^ 64
unfolding mix
mix-lt h v p = mix_bytes-lt 8 h v p

mix_inj : (h k v : ℕ) → h < 2 ^ 64 → k < 2 ^ 64 → mix h v ≡ mix k v → h ≡ k
unfolding mix
mix_inj h k v p q e = mix_bytes_inj 8 h k v p q e

mix_all : ℕ → List ℕ → ℕ
mix_all h [] = h
mix_all h (v ∷ vs) = mix_all (mix h v) vs

mix_all-lt : (h : ℕ) (vs : List ℕ) → h < 2 ^ 64 → mix_all h vs < 2 ^ 64
unfolding mix_all
mix_all-lt h [] p = p
mix_all-lt h (v ∷ vs) p = mix_all-lt (mix h v) vs (mix-lt h v p)

mix_all_inj :
    (h k : ℕ) (vs : List ℕ) → h < 2 ^ 64 → k < 2 ^ 64 → mix_all h vs ≡ mix_all k vs → h ≡ k
unfolding mix_all
mix_all_inj h k [] p q e = e
mix_all_inj h k (v ∷ vs) p q e =
    mix_inj h k v p q (mix_all_inj (mix h v) (mix k v) vs (mix-lt h v p) (mix-lt k v q) e)

fields : TraceEvent → List ℕ
fields e = e.time ∷ e.node ∷ kind_number e.kind ∷ e.a ∷ e.b ∷ []

hash_event_lem : (h : ℕ) (e : TraceEvent) → hash_event h e ≡ mix_all h (fields e)
unfolding hash_event mix_all fields
hash_event_lem h e = refl

hash_event-lt : (h : ℕ) (e : TraceEvent) → h < 2 ^ 64 → hash_event h e < 2 ^ 64
hash_event-lt h e p = rw (hash_event_lem h e) (mix_all-lt h (fields e) p)

hash_event_inj :
    (h k : ℕ) (e : TraceEvent) → h < 2 ^ 64 → k < 2 ^ 64 → hash_event h e ≡ hash_event k e → h ≡ k
hash_event_inj h k e p q d =
    mix_all_inj h k (fields e) p q (sym (hash_event_lem h e) ∙ d ∙ hash_event_lem k e)

-- Traces whose hashes agree after they recorded the same events agreed before: once two runs have
-- diverged, no common events bring the hashes together. The hashes are 64-bit numbers.
pub record_all-diverged :
    (es : List TraceEvent) (s t : Trace)
    → s.hash < 2 ^ 64
    → t.hash < 2 ^ 64
    → (record_all es s).hash ≡ (record_all es t).hash
    → s.hash ≡ t.hash
unfolding record_all record_event
record_all-diverged [] s t p q e = e
record_all-diverged (x ∷ es) s t p q e = hash_event_inj s.hash t.hash x p q (
    record_all-diverged es (record_event x s) (record_event x t) (hash_event-lt s.hash x p)
      (hash_event-lt t.hash x q) e)
