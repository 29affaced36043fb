-- ===== src/Proto/RoundTrip/Sent.antt =====
-- The frames of lines, read back whole.
use erssi_lith_bridge.Base.{◌+◌, ◌^◌, ◌<◌, ◌≡◌, List, Bytes, ok, some, length, All}
use erssi_lith_bridge.Proto.Create.{LineData, create_lines_hdata_with_id}
use erssi_lith_bridge.Proto.Encoder.{encode_body, frame}
use erssi_lith_bridge.Proto.WireMessage.{read_message}
use erssi_lith_bridge.Proto.RoundTrip.Plain.{IsText}
use erssi_lith_bridge.Proto.RoundTrip.Created.{IsLineData, lines_read_back}
use erssi_lith_bridge.Proto.RoundTrip.Messages.{read_message-body}

-- A frame of lines of less than 2 ^ 32 bytes can be made, and is read back as the same lines.
pub lines_frame_read :
    (ls : List LineData) (id body : Bytes)
    → IsText id
    → All IsLineData ls
    → length ls < 2 ^ 31
    → encode_body (create_lines_hdata_with_id ls id) ≡ ok body
    → 5 + length body < 2 ^ 32
    → (bs : Bytes) × (frame (create_lines_hdata_with_id ls id) ≡ ok bs)
      × (read_message bs ≡ some (create_lines_hdata_with_id ls id))
unfolding create_lines_hdata_with_id
lines_frame_read ls id body text fits few encoded small =
    let (body', encoded', back) = lines_read_back ls id text fits few in
    let same : body ≡ body' = cc in
    read_message-body (create_lines_hdata_with_id ls id) (create_lines_hdata_with_id ls id) body
      encoded (rw same back) small
