-- ===== src/Translator/Views.antt =====
-- internal/translator/translator.go: the operations that read the buffers, and the parsing of
-- client commands.
use erssi_lith_bridge.Base.{
  ◌-◌, Bool, true, false, List, [], ◌∷◌, ◌++◌, map, Option, none, some, Bytes, Result, ok, err,
  panic, length, drop, ltb, if◌then◌else◌,
}
use erssi_lith_bridge.Base.Int.{ℤ, pos, negsuc}
use erssi_lith_bridge.Base.Text.{codes, str_eq, join, cut}
use erssi_lith_bridge.Base.Assoc.{lookup}
use erssi_lith_bridge.Proto.Types.{Message}
use erssi_lith_bridge.Proto.Create.{
  BufferData, create_buffers_hdata_with_id, create_lines_hdata_with_id,
  create_empty_hotlist_with_id,
}
use erssi_lith_bridge.Erssi.Types.{WebMessage, message, zero_message, is_empty}
use erssi_lith_bridge.Translator.State.{BufferState, Translator, Host, buffer_key}

pub data ParseError : Type 0 where
  need_buffer_and_text need_path : ParseError
  buffer_not_found : Bytes → ParseError

-- The words of a command, and the error of each command that lacks one.
unfoldable pub parse_input_command : List Bytes → Result ParseError (Bytes × Bytes)
parse_input_command [] = err need_buffer_and_text
parse_input_command (p ∷ []) = err need_buffer_and_text
parse_input_command (p ∷ w ∷ ws) = ok (p, join (w ∷ ws) (codes " "))

unfoldable pub parse_hdata_command : List Bytes → Result ParseError (Bytes × Bytes)
parse_hdata_command [] = err need_path
parse_hdata_command (path ∷ []) = ok (path, [])
parse_hdata_command (path ∷ params ∷ _) = ok (path, params)

-- Ranging over the map: the first entry with the pointer, in the order of the list.
unfoldable pub find_pointer : Bytes → List (Bytes × BufferState) → Option (Bytes × BufferState)
find_pointer ptr [] = none
find_pointer ptr ((k, b) ∷ m) = if str_eq b.pointer ptr then some (k, b) else find_pointer ptr m

-- `strings.SplitN(key, ".", 2)`; without a dot the tag stays empty.
unfoldable pub split_key : Bytes → Bytes × Bytes
split_key key = elim (cut b'.' key) [ none ↦ ([], []) | some (tag, target) ↦ (tag, target) ]

-- The functions below range over the map: they are given its entries in the order of the range,
-- which Go leaves open.
unfoldable pub input_to_erssi_command :
    Bytes → Bytes → List (Bytes × BufferState) → Result ParseError WebMessage
input_to_erssi_command ptr text entries =
    let tag_target : Bytes × Bytes = elim (find_pointer ptr entries) [
      | none ↦ ([], [])
      | some (key, b) ↦ split_key key
    ] in
    if is_empty tag_target.0
    then err (buffer_not_found ptr)
    else ok (record (zero_message message) {
      server_tag = tag_target.0;
      target = tag_target.1;
      text = text;
    })

-- The tag and the target of a buffer. A key with no dot is a server's.
unfoldable pub get_buffer_info : Bytes → List (Bytes × BufferState) → Bytes × Bytes
get_buffer_info ptr entries = elim (find_pointer ptr entries) [
  | none ↦ ([], [])
  | some (key, b) ↦ elim (cut b'.' key) [
    | some (tag, target) ↦ (tag, target)
    | none ↦ (b.server_tag, b.short_name)
  ]
]

-- `lines[len(lines)-count:]` where there are more than `count` lines. A negative count makes a
-- bound past the end, or one that wraps below zero: the slice panics either way.
unfoldable pub last_lines {ℓ} : {E : Type 0} {A : Type ℓ} → ℤ → List A → Result E (List A)
last_lines (pos n) ls = ok (if ltb n (length ls) then drop (length ls - n) ls else ls)
last_lines (negsuc n) ls = panic

unfoldable pub get_buffer_lines :
    Bytes → ℤ → Bytes → List (Bytes × BufferState) → Result ParseError Message
get_buffer_lines ptr count id entries = elim (find_pointer ptr entries) [
  | none ↦ ok (create_lines_hdata_with_id [] id)
  | some (key, b) ↦ elim (last_lines {E = ParseError} count b.lines) [
    | ok ls ↦ ok (create_lines_hdata_with_id ls id)
    | err e ↦ err e
    | panic ↦ panic
  ]
]

unfoldable pub local_variables : BufferState → Bytes
local_variables b =
    if b.is_server then codes "type=server" else codes "type=channel,server=" ++ b.server_tag

unfoldable pub buffer_data : BufferState → BufferData
buffer_data b = record {
  pointer = b.pointer;
  number = b.number;
  name = b.name;
  short_name = b.short_name;
  hidden = false;
  title = b.title;
  local_variables = local_variables b;
}

unfoldable pub lt_int : ℤ → ℤ → Bool
lt_int (pos m) (pos n) = ltb m n
lt_int (pos m) (negsuc n) = false
lt_int (negsuc m) (pos n) = true
lt_int (negsuc m) (negsuc n) = ltb n m

-- sort.Slice by the numbers.
unfoldable pub insert_sorted : BufferState → List BufferState → List BufferState
insert_sorted b [] = b ∷ []
insert_sorted b (c ∷ cs) = if lt_int c.number b.number then c ∷ insert_sorted b cs else b ∷ c ∷ cs

unfoldable pub sort_buffers : List BufferState → List BufferState
sort_buffers [] = []
sort_buffers (b ∷ bs) = insert_sorted b (sort_buffers bs)

unfoldable pub get_all_buffers : Bytes → List (Bytes × BufferState) → Message
get_all_buffers id entries =
    create_buffers_hdata_with_id
      (map buffer_data (sort_buffers (map (λ (e : Bytes × BufferState). e.1) entries))) id

unfoldable pub get_buffer_list : List (Bytes × BufferState) → List Bytes
get_buffer_list entries = map (λ (e : Bytes × BufferState). e.0) entries

unfoldable pub get_buffer_opened_event : Host → Bytes → Bytes → Translator → Message
get_buffer_opened_event h server_tag target t =
    create_buffers_hdata_with_id
      (elim (lookup (buffer_key h server_tag target) t.buffers) [
        | some b ↦ buffer_data b ∷ []
        | none ↦ []
      ])
      (codes "_buffer_opened")

unfoldable pub get_empty_hotlist : Bytes → Message
get_empty_hotlist id = create_empty_hotlist_with_id id
