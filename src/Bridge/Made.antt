-- ===== src/Bridge/Made.antt =====
-- The messages that the bridge sends to the clients are those of four Create functions.
use erssi_lith_bridge.Base.{List, Bytes}
use erssi_lith_bridge.Proto.Types.{Message}
use erssi_lith_bridge.Proto.Create.{
  BufferData, LineData, NickData, create_buffers_hdata_with_id, create_lines_hdata_with_id,
  create_nicklist_hdata, create_empty_hotlist_with_id,
}

pub data IsMade : Message → Type 0 where
  made_buffers : (bs : List BufferData) (id : Bytes) → IsMade (create_buffers_hdata_with_id bs id)
  made_lines : (ls : List LineData) (id : Bytes) → IsMade (create_lines_hdata_with_id ls id)
  made_nicklist : (ns : List NickData) → IsMade (create_nicklist_hdata ns)
  made_hotlist : (id : Bytes) → IsMade (create_empty_hotlist_with_id id)
