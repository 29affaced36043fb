-- ===== src/Translator/Buffers.antt =====
-- internal/translator/translator.go: the operations that create and fill buffers.
use Prim.Native.Nat.{◌/◌}
use erssi_lith_bridge.Base.{
  ◌+◌, ◌-◌, ◌^◌, true, false, List, [], ◌∷◌, ◌++◌, Option, none, some, Bytes, length, drop, ltb,
  if◌then◌else◌,
}
use erssi_lith_bridge.Base.Int.{ℤ, pos, incr_int32}
use erssi_lith_bridge.Base.Text.{codes, str_eq, join}
use erssi_lith_bridge.Base.Assoc.{lookup, insert}
use erssi_lith_bridge.Proto.Types.{Message}
use erssi_lith_bridge.Proto.Create.{LineData, NickData, create_lines_hdata, create_nicklist_hdata}
use erssi_lith_bridge.Erssi.Types.{WebMessage, NickInfo, is_empty}
use erssi_lith_bridge.Translator.State.{BufferState, Translator, Host, buffer_key, generate_pointer}

unfoldable pub update_title : Bytes → Bytes → BufferState → Translator → BufferState × Translator
update_title key topic existing t =
    if is_empty topic
    then (existing, t)
    else let buffer = record existing { title = topic } in
      (buffer, record t { buffers = insert key buffer t.buffers })

abbrev pub channel_buffer : Bytes → Bytes → Bytes → Bytes → ℤ → BufferState
channel_buffer server_tag target topic ptr num = record {
  pointer = ptr;
  number = num;
  server_tag = server_tag;
  name = server_tag ++ (codes "." ++ target);
  short_name = target;
  title = topic;
  lines = [];
  nicks = [];
  is_server = false;
}

abbrev pub server_buffer : Bytes → Bytes → ℤ → BufferState
server_buffer server_tag ptr num = record {
  pointer = ptr;
  number = num;
  server_tag = server_tag;
  name = server_tag;
  short_name = server_tag;
  title = codes "Server " ++ server_tag;
  lines = [];
  nicks = [];
  is_server = true;
}

-- The tags of a line.
unfoldable pub generate_tags : WebMessage → Bytes
generate_tags msg =
    join
      ((codes "notify_message" ∷ [])
        ++ ((if msg.is_highlight then codes "notify_highlight" ∷ [] else [])
            ++ (if is_empty msg.nick then [] else (codes "nick_" ++ msg.nick) ∷ [])))
      (codes ",")

-- The last 500 lines.
unfoldable pub trim_lines : List LineData → List LineData
trim_lines ls = if ltb 500 (length ls) then drop (length ls - 500) ls else ls

unfoldable pub get_prefix_color : Bytes → Bytes
get_prefix_color prefix =
    if str_eq prefix (codes "@")
    then codes "lightgreen"
    else if str_eq prefix (codes "+")
    then codes "yellow"
    else if str_eq prefix (codes "%")
    then codes "lightmagenta"
    else codes "default"

module _ (h : Host) where
  -- The new buffer under a key: it takes the next number and a fresh pointer.
  unfoldable pub add_buffer :
      Bytes → (Bytes → ℤ → BufferState) → Translator → BufferState × Translator
  add_buffer key make t =
      let (ptr, t') =
        generate_pointer h (record t { next_buffer_num = incr_int32 t.next_buffer_num }) in
      let buffer = make ptr t.next_buffer_num in
      (buffer, record t' { buffers = insert key buffer t'.buffers })

  unfoldable pub with_existing :
      Bytes → Bytes → Bytes → Option BufferState → Translator → BufferState × Translator
  with_existing server_tag target topic (some existing) t =
      update_title (buffer_key h server_tag target) topic existing t
  with_existing server_tag target topic none t =
      add_buffer (buffer_key h server_tag target) (channel_buffer server_tag target topic) t

  unfoldable pub create_buffer_with_topic :
      Bytes → Bytes → Bytes → Translator → BufferState × Translator
  create_buffer_with_topic server_tag target topic t =
      with_existing server_tag target topic (lookup (buffer_key h server_tag target) t.buffers) t

  -- `createBuffer` and `EnsureBuffer`.
  unfoldable pub ensure_buffer : Bytes → Bytes → Translator → BufferState × Translator
  ensure_buffer server_tag target t = create_buffer_with_topic server_tag target [] t

  unfoldable pub ensure_server_buffer : Bytes → Translator → BufferState × Translator
  ensure_server_buffer server_tag t = elim (lookup server_tag t.buffers) [
    | some existing ↦ (existing, t)
    | none ↦ add_buffer server_tag (server_buffer server_tag) t
  ]

  -- `buffer, ok := t.buffers[bufferKey]; if !ok { buffer = t.createBuffer(…) }`.
  unfoldable pub find_or_create : Bytes → Bytes → Translator → BufferState × Translator
  find_or_create server_tag target t = elim (lookup (buffer_key h server_tag target) t.buffers) [
    | some existing ↦ (existing, t)
    | none ↦ ensure_buffer server_tag target t
  ]

  -- `time.Now().Unix()` is one more reading of the clock.
  unfoldable pub make_line : WebMessage → Bytes → Translator → LineData × Translator
  make_line msg buffer_ptr t =
      let (ptr, t') = generate_pointer h t in
      (
        record {
          pointer = ptr;
          buffer_ptr = buffer_ptr;
          date = msg.timestamp;
          date_printed = pos (h.clock t'.reads / 10 ^ 9);
          displayed = true;
          highlight = msg.is_highlight;
          tags = generate_tags msg;
          prefix = msg.nick;
          message = msg.text;
        },
        record t' { reads = t'.reads + 1 },
      )

  unfoldable pub erssi_message_to_line : WebMessage → Translator → Message × Translator
  erssi_message_to_line msg t =
      let (buffer, t') = find_or_create msg.server_tag msg.target t in
      let (line, t'') = make_line msg buffer.pointer t' in
      let buffer' = record buffer { lines = trim_lines (buffer.lines ++ (line ∷ [])) } in
      (
        create_lines_hdata (line ∷ []),
        record t'' {
          buffers = insert (buffer_key h msg.server_tag msg.target) buffer' t''.buffers;
        },
      )

  -- The loop over the nicks; each takes a fresh pointer.
  unfoldable pub make_nicks : List NickInfo → Translator → List NickData × Translator
  make_nicks [] t = ([], t)
  make_nicks (n ∷ ns) t =
      let (ptr, t') = generate_pointer h t in
      let (rest, t'') = make_nicks ns t' in
      (
        record {
          pointer = ptr;
          is_group = false;
          visible = true;
          name = n.nick;
          color = codes "default";
          prefix = n.prefix;
          prefix_color = get_prefix_color n.prefix;
        }
            ∷ rest,
        t'',
      )

  unfoldable pub erssi_nicklist_to_weechat :
      WebMessage → List NickInfo → Translator → Message × Translator
  erssi_nicklist_to_weechat msg nicks t =
      let (buffer, t') = find_or_create msg.server_tag msg.target t in
      let (nick_data, t'') = make_nicks nicks t' in
      let buffer' = record buffer { nicks = nick_data } in
      (
        create_nicklist_hdata nick_data,
        record t'' {
          buffers = insert (buffer_key h msg.server_tag msg.target) buffer' t''.buffers;
        },
      )
