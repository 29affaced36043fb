-- ===== src/Bridge/State.antt =====
-- internal/bridge/bridge.go: the bridge's state, and what a handler asks the two connections to do.
use erssi_lith_bridge.Base.{[], Bool, false, Bytes}
use erssi_lith_bridge.Proto.Types.{Message}
use erssi_lith_bridge.Erssi.Types.{WebMessage}
use erssi_lith_bridge.Translator.State.{Translator, new_translator}

pub record Bridge : Type 0 where
  pub translator : Translator
  pub in_state_dump : Bool
  pub state_dump_server : Bytes
  pub state_dump_requested : Bool

-- A failed send is logged and otherwise ignored by every handler.
pub data Effect : Type 0 where
  broadcast : Message → Effect  -- to every authenticated client
  reply : Message → Effect  -- to the client whose command it is
  to_erssi : WebMessage → Effect
  crash : Effect  -- a panic in the handler's goroutine, which ends the process

abbrev pub new_bridge : Bridge
new_bridge = record {
  translator = new_translator;
  in_state_dump = false;
  state_dump_server = [];
  state_dump_requested = false;
}
