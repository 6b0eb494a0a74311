-- ===== src/Wire/Frame.antt =====
-- src/wire/frame.h and src/wire/frame.cpp: the frame around every request and response.
pub mod Stream
use log_engine.Prelude.{
  ℕ, ◌+◌, ◌-◌, ◌*◌, Option, none, some, List, ltb, leb, if◌then◌else◌, length, take, drop, to_u32,
}
use log_engine.Base.Buffer.{Buffer, contents, size, consume, append, append_u16_le, append_u32_le}
use log_engine.Base.Endian.{load_u16_le, load_u32_le}
use log_engine.Base.Error.{message_too_large, invalid_request, Result, ok, fail}

abbrev pub length_field_bytes : ℕ
length_field_bytes = 4

abbrev pub header_bytes : ℕ
header_bytes = 8

abbrev pub frame_prefix_bytes : ℕ
frame_prefix_bytes = 12

abbrev pub default_max_frame_bytes : ℕ
default_max_frame_bytes = 16 * 1024 * 1024

pub record FrameHeader : Type 0 where
  pub api_key : ℕ
  pub api_version : ℕ
  pub correlation_id : ℕ

unfoldable pub encode_frame : Buffer → FrameHeader → List ℕ → Buffer
encode_frame out header payload =
    let out1 = append_u32_le (to_u32 (header_bytes + length payload)) out in
    let out2 = append_u16_le header.api_key out1 in
    let out3 = append_u16_le header.api_version out2 in
    let out4 = append_u32_le header.correlation_id out3 in append payload out4

-- The length field at the front of the buffer and the size of the frame that it announces.
abbrev pub announced : Buffer → ℕ
announced b = load_u32_le (contents b) 0

abbrev pub frame_total : Buffer → ℕ
frame_total b = length_field_bytes + announced b

unfoldable pub bytes_needed : Buffer → ℕ
bytes_needed b =
    if ltb (size b) length_field_bytes
    then length_field_bytes - size b
    else if leb (frame_total b) (size b)
    then 0
    else frame_total b - size b

abbrev pub load_header : List ℕ → FrameHeader
load_header p = record {
  api_key = load_u16_le p 4;
  api_version = load_u16_le p 6;
  correlation_id = load_u32_le p 8;
}

-- `none` stands for "need more bytes".
unfoldable pub next_frame : ℕ → Buffer → Result (Option (FrameHeader × List ℕ))
next_frame max_frame_bytes b =
    if ltb (size b) length_field_bytes
    then ok none
    else if ltb (announced b) header_bytes
    then fail invalid_request
    else if ltb max_frame_bytes (announced b)
    then fail message_too_large
    else if ltb (size b) (frame_total b)
    then ok none
    else ok (
        some (
          load_header (contents b),
          take (announced b - header_bytes) (drop frame_prefix_bytes (contents b)),
        ))

unfoldable pub consume_frame : Buffer → Buffer
consume_frame b =
    if ltb (size b) length_field_bytes
    then b
    else if ltb (size b) (frame_total b)
    then b
    else consume (frame_total b) b
