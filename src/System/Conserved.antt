-- ===== src/System/Conserved.antt =====
-- No handler and no send is lost or doubled while the program runs: internal/weechat/server.go,
-- internal/erssi/client.go and internal/bridge/bridge.go together.
use erssi_lith_bridge.Base.{List}
use erssi_lith_bridge.System.State.{System}
