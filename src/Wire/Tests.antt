-- ===== src/Wire/Tests.antt =====
-- A stream with one frame and a part of the next.
use log_engine.Prelude.{ℕ, ◌≡◌, refl, some, List, [], ◌∷◌, ◌++◌, arith}
use log_engine.Base.Buffer.{Buffer, contents}
use log_engine.Base.Buffer.View.{IsBuffer}
use log_engine.Base.Error.{ok}
use log_engine.Wire.Api.{echo_key}
use log_engine.Wire.Frame.{default_max_frame_bytes, FrameHeader, next_frame, consume_frame}
use log_engine.Wire.Frame.Stream.{
  IsHeader, frame_bytes, frame_then_rest, Decoded, next_frame-Decoded,
}

abbrev ping : FrameHeader
ping = record { api_key = echo_key; api_version = 0; correlation_id = 7 }

abbrev payload : List ℕ
payload = 1 ∷ 2 ∷ 3 ∷ []

abbrev rest : List ℕ
rest = 9 ∷ []

abbrev stream : Buffer
stream = record { bytes = frame_bytes ping payload ++ rest; read_pos = 0 }

ping-IsHeader : IsHeader ping
ping-IsHeader = record {
  api_key = omega arith;
  api_version = omega arith;
  correlation_id = omega arith;
}

frame_then_rest_example :
    (next_frame default_max_frame_bytes stream ≡ ok (some (ping, payload)))
    × (contents (consume_frame stream) ≡ rest)
    × IsBuffer (consume_frame stream)
frame_then_rest_example =
    frame_then_rest default_max_frame_bytes stream ping payload rest (omega arith) ping-IsHeader
      (omega arith) (omega arith) refl

next_frame-Decoded_example :
    Decoded default_max_frame_bytes stream (next_frame default_max_frame_bytes stream)
next_frame-Decoded_example = next_frame-Decoded default_max_frame_bytes stream
