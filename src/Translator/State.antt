-- ===== src/Translator/State.antt =====
-- internal/translator/translator.go: the translator's state and the values that it takes from
-- outside.
use erssi_lith_bridge.Base.{ℕ, ◌+◌, List, [], ◌++◌, Bool, Bytes, Option}
use erssi_lith_bridge.Base.Int.{ℤ, pos}
use erssi_lith_bridge.Base.Text.{codes, hex, to_lower}
use erssi_lith_bridge.Proto.Create.{LineData, NickData}
use erssi_lith_bridge.Erssi.Types.{NickInfo}

pub record BufferState : Type 0 where
  pub pointer : Bytes
  pub number : ℤ
  pub server_tag : Bytes
  pub name : Bytes
  pub short_name : Bytes
  pub title : Bytes
  pub lines : List LineData
  pub nicks : List NickData
  pub is_server : Bool

-- `reads` counts how often the clock has been read. A `*BufferState` is reached through the one
-- map entry that holds it, so an entry is the buffer itself.
pub record Translator : Type 0 where
  pub buffers : List (Bytes × BufferState)
  pub next_buffer_num : ℤ
  pub reads : ℕ

-- What the translator takes from outside: the reading of `time.Now().UnixNano()` at each call, the
-- Unicode tables of strings.ToLower, and json.Unmarshal into a list of nicks.
pub record Host : Type 0 where
  pub clock : ℕ → ℕ
  pub unicode_lower : Bytes → Bytes
  pub parse_nicks : Bytes → Option (List NickInfo)

-- NewTranslator.
abbrev pub new_translator : Translator
new_translator = record { buffers = []; next_buffer_num = pos 1; reads = 0 }

-- `fmt.Sprintf("0x%x", n)`.
unfoldable pub pointer_text : ℕ → Bytes
pointer_text n = codes "0x" ++ hex n

-- `getBufferKey`: `fmt.Sprintf("%s.%s", serverTag, strings.ToLower(target))`.
unfoldable pub buffer_key : Host → Bytes → Bytes → Bytes
buffer_key h server_tag target = server_tag ++ (codes "." ++ to_lower h.unicode_lower target)

unfoldable pub generate_pointer : Host → Translator → Bytes × Translator
generate_pointer h t = (pointer_text (h.clock t.reads), record t { reads = t.reads + 1 })
