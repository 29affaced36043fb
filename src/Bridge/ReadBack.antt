-- ===== src/Bridge/ReadBack.antt =====
-- What the bridge sends to the clients is read back.
use erssi_lith_bridge.Base.{◌+◌, ◌^◌, ◌<◌, ◌≡◌, Bytes, ok, some, length, All, ◌∷◌}
use erssi_lith_bridge.Proto.Types.{Message}
use erssi_lith_bridge.Proto.Encoder.{encode_body}
use erssi_lith_bridge.Proto.WireMessage.{read_body}
use erssi_lith_bridge.Proto.RoundTrip.Plain.{IsText}
use erssi_lith_bridge.Proto.RoundTrip.Created.{
  IsBufferData, IsLineData, buffers_read_back, lines_read_back,
}
use erssi_lith_bridge.Proto.RoundTrip.Nicks.{IsNickData, nicklist_read_back, hotlist_read_back}
use erssi_lith_bridge.Bridge.Made.{IsMade, made_buffers, made_lines, made_nicklist, made_hotlist}

-- The strings and numbers of the data fit the widths of the format, and there are fewer than 2 ^ 31 items.
abbrev pub Fits : {msg : Message} → IsMade msg → Type 0
Fits (made_buffers bs id) = IsText id × All IsBufferData bs × (length bs < 2 ^ 31)
Fits (made_lines ls id) = IsText id × All IsLineData ls × (length ls < 2 ^ 31)
Fits (made_nicklist ns) = All IsNickData ns × (length ns < 2 ^ 31)
Fits (made_hotlist id) = IsText id

-- Each message that the bridge makes for the clients, of buffers, lines, nicks or an empty hotlist, can
-- be encoded if its data fit the format, and a client reads the same message from the body, its items in
-- the same order.
pub made_read_back :
    (msg : Message) (made : IsMade msg)
    → Fits made
    → (body : Bytes) × (encode_body msg ≡ ok body)
      × (read_body (5 + length body) (0 ∷ body) ≡ some msg)
made_read_back _ (made_buffers bs id) (i, h, small) = buffers_read_back bs id i h small
made_read_back _ (made_lines ls id) (i, h, small) = lines_read_back ls id i h small
made_read_back _ (made_nicklist ns) (h, small) = nicklist_read_back ns h small
made_read_back _ (made_hotlist id) i = hotlist_read_back id i
