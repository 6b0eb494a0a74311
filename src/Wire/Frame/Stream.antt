-- ===== src/Wire/Frame/Stream.antt =====
-- src/wire/frame.cpp: frames through a stream of bytes.
use log_engine.Prelude.{
  ℕ, ◌+◌, ◌-◌, ◌≤◌, ◌<◌, ◌≡◌, refl, sym, ap, ◌∙◌, ◌⊎◌, inl, inr, false, Option, none, some, List,
  ◌++◌, arith, ltb, le→not-ltb, if_intro, length, take, drop, length-append, length-drop,
  take_front, drop_front, length-take, IsU16, IsU32, to_u32,
}
use mathlib.Core.Path.{ap₂}
use native.Mathlib.Nat.{mod-eq_of_lt}
use log_engine.Base.Buffer.{Buffer, contents, size, append_u16_le, append_u32_le}
use log_engine.Base.Buffer.View.{
  IsBuffer, Appends, append-Appends, append_u16_le-Appends, append_u32_le-Appends, Appends-trans,
  Consumes, consume-Consumes,
}
use log_engine.Base.Endian.{split_u16, split_u32, load_u16_le, load_u32_le}
use log_engine.Base.Endian.RoundTrip.{join_u16-split, join_u32-split}
use log_engine.Base.Error.{message_too_large, invalid_request, Result, ok, fail}
use log_engine.Wire.Frame.{
  length_field_bytes, header_bytes, frame_prefix_bytes, FrameHeader, encode_frame, announced,
  frame_total, bytes_needed, load_header, next_frame, consume_frame,
}

pub record IsHeader (h : FrameHeader) : Type 0 where
  pub api_key : IsU16 h.api_key
  pub api_version : IsU16 h.api_version
  pub correlation_id : IsU32 h.correlation_id

-- The bytes of a frame.
abbrev pub frame_bytes : FrameHeader → List ℕ → List ℕ
frame_bytes h payload =
    split_u32 (to_u32 (header_bytes + length payload))
    ++ split_u16 h.api_key
    ++ split_u16 h.api_version
    ++ split_u32 h.correlation_id
    ++ payload

encode_frame-Appends :
    (out : Buffer) (h : FrameHeader) (payload : List ℕ)
    → IsBuffer out
    → Appends (frame_bytes h payload) out (encode_frame out h payload)
unfolding encode_frame
encode_frame-Appends out h payload v =
    let b1 = append_u32_le (to_u32 (header_bytes + length payload)) out in
    let a1 = append_u32_le-Appends (to_u32 (header_bytes + length payload)) out v in
    let b2 = append_u16_le h.api_key b1 in
    let a2 = append_u16_le-Appends h.api_key b1 a1.valid in
    let b3 = append_u16_le h.api_version b2 in
    let a3 = append_u16_le-Appends h.api_version b2 a2.valid in
    let b4 = append_u32_le h.correlation_id b3 in
    let a4 = append_u32_le-Appends h.correlation_id b3 a3.valid in
    let a5 = append-Appends payload b4 a4.valid in
    let t4 = Appends-trans (split_u32 h.correlation_id) payload b3 b4 _ a4 a5 in
    let t3 = Appends-trans (split_u16 h.api_version) _ b2 b3 _ a3 t4 in
    let t2 = Appends-trans (split_u16 h.api_key) _ b1 b2 _ a2 t3 in
    Appends-trans (split_u32 (to_u32 (header_bytes + length payload))) _ out b1 _ a1 t2

length-contents : (b : Buffer) → size b ≡ length (contents b)
length-contents b = sym (length-drop b.read_pos b.bytes)

module _ (max_frame_bytes : ℕ) (b : Buffer) (h : FrameHeader) (payload rest : List ℕ)
    (v : IsBuffer b) (w : IsHeader h) (fits : header_bytes + length payload ≤ max_frame_bytes)
    (narrow : IsU32 max_frame_bytes) (e : contents b ≡ frame_bytes h payload ++ rest) where
  announced_lem : announced b ≡ header_bytes + length payload
  unfolding load_u32_le
  announced_lem = rw e (
      join_u32-split (to_u32 (header_bytes + length payload)) (omega arith)
      ∙ mod-eq_of_lt (omega arith))

  size_lem : size b ≡ frame_prefix_bytes + length payload + length rest
  size_lem = length-contents b ∙ ap length e ∙ measured
    where
      measured :
          length (frame_bytes h payload ++ rest) ≡ frame_prefix_bytes + length payload + length rest
      measured = omega (arith, length-append payload rest)

  load_header_lem : load_header (contents b) ≡ h
  unfolding load_u32_le load_u16_le
  load_header_lem =
      rw
        (
          e,
          join_u16-split h.api_key w.api_key,
          join_u16-split h.api_version w.api_version,
          join_u32-split h.correlation_id w.correlation_id,
        )
        refl

  long_enough : ltb (size b) length_field_bytes ≡ false
  long_enough = le→not-ltb (size b) length_field_bytes (omega (arith, size_lem))

  whole_frame : ltb (size b) (frame_total b) ≡ false
  whole_frame = le→not-ltb (size b) (frame_total b) (omega (arith, size_lem, announced_lem))

  header_there : ltb (announced b) header_bytes ≡ false
  header_there = le→not-ltb (announced b) header_bytes (omega (arith, announced_lem))

  allowed : ltb max_frame_bytes (announced b) ≡ false
  allowed = le→not-ltb max_frame_bytes (announced b) (omega (arith, announced_lem))

  payload_lem : take (announced b - header_bytes) (drop frame_prefix_bytes (contents b)) ≡ payload
  payload_lem =
      rw (announced_lem, e) (ap (λ n. take n (payload ++ rest)) measured ∙ take_front payload rest)
    where
      measured : 8 + length payload - 8 ≡ length payload
      measured = omega arith

  next_frame_lem : next_frame max_frame_bytes b ≡ ok (some (h, payload))
  unfolding next_frame
  next_frame_lem =
      rw (long_enough, header_there, allowed, whole_frame, load_header_lem, payload_lem) refl

  consume_frame_lem : Consumes (frame_total b) b (consume_frame b)
  unfolding consume_frame
  consume_frame_lem =
      rw (long_enough, whole_frame)
        (consume-Consumes (frame_total b) b (omega (arith, size_lem, announced_lem)) v)

  -- A buffer that starts with a frame gives that frame out, and once it is consumed what follows is
  -- at the front. The header fits its fields and the frame the limit, which is a 32-bit number.
  pub frame_then_rest :
      (next_frame max_frame_bytes b ≡ ok (some (h, payload)))
      × (contents (consume_frame b) ≡ rest)
      × IsBuffer (consume_frame b)
  frame_then_rest = (next_frame_lem, dropped, consume_frame_lem.valid)
    where
      total : frame_total b ≡ length (frame_bytes h payload)
      total = omega (arith, announced_lem)

      dropped : contents (consume_frame b) ≡ rest
      dropped = consume_frame_lem.view ∙ ap₂ drop total e ∙ drop_front (frame_bytes h payload) rest

-- What the decoder says of any bytes: a frame that it gives out is within the limit and whole; where
-- it asks for more, the count of missing bytes is positive, and where it gives a frame it is zero.
abbrev pub Decoded : ℕ → Buffer → Result (Option (FrameHeader × List ℕ)) → Type 0
Decoded limit b (ok none) = 0 < bytes_needed b
Decoded limit b (ok (some f)) =
    (bytes_needed b ≡ 0)
    × (header_bytes + length f.1 ≤ limit)
    × (length_field_bytes + header_bytes + length f.1 ≤ size b)
Decoded limit b (fail c) =
    (length_field_bytes ≤ size b)
    × ((c ≡ invalid_request) ⊎ ((c ≡ message_too_large) × (limit < announced b)))

pub next_frame-Decoded :
    (max_frame_bytes : ℕ) (b : Buffer) → Decoded max_frame_bytes b (next_frame max_frame_bytes b)
unfolding next_frame bytes_needed
next_frame-Decoded limit b =
    if_intro (Decoded limit b) (ltb (size b) length_field_bytes) _ _ (λ p. ground arith)
      λ p.
        if_intro (Decoded limit b) (ltb (announced b) header_bytes) _ _
          (λ q. (ground arith, inl refl))
          λ q.
            if_intro (Decoded limit b) (ltb limit (announced b)) _ _
              (λ r. (ground arith, inr (refl, ground arith)))
              λ r.
                if_intro (Decoded limit b) (ltb (size b) (frame_total b)) _ _ (λ s. ground arith)
                  λ s.
                    let l =
                      length-take (announced b - header_bytes)
                        (drop frame_prefix_bytes (contents b)) in
                    (ground arith, ground arith, ground arith)
