-- ===== src/Translator/History.antt =====
-- The lines that a buffer keeps are the last 500 that were delivered to it.
use erssi_lith_bridge.Base.{
  ℕ, ◌+◌, ◌-◌, ◌≤◌, ◌≡◌, refl, sym, ap, ◌∙◌, List, [], ◌∷◌, ◌++◌, none, some, Bytes, length, drop,
  length-append, length-drop, drop-append_le, drop_zero, drop-drop, append_assoc, append-nil, ltb,
  Bool-cases, inl, inr, if◌then◌else◌, arith, Option-cases,
}
use erssi_lith_bridge.Base.Int.{ℤ}
use erssi_lith_bridge.Base.Text.{str_eq, str_eq_iff}
use erssi_lith_bridge.Base.Assoc.{lookup, insert, lookup-insert}
use erssi_lith_bridge.Proto.Create.{LineData}
use erssi_lith_bridge.Erssi.Types.{WebMessage}
use erssi_lith_bridge.Translator.State.{
  BufferState, Translator, Host, buffer_key, generate_pointer, new_translator,
}
use erssi_lith_bridge.Translator.Buffers.{
  trim_lines, make_line, find_or_create, ensure_buffer, create_buffer_with_topic, with_existing,
  add_buffer, channel_buffer, erssi_message_to_line,
}

trim_lines-drop : (xs : List LineData) → trim_lines xs ≡ drop (length xs - 500) xs
unfolding trim_lines
trim_lines-drop xs = elim (Bool-cases (ltb 500 (length xs))) [
  | inl long ↦ rw long
  | inr short ↦
      let none_over : length xs - 500 ≡ 0 = ground arith in
      rw short (sym (drop_zero (length xs - 500) xs none_over))
]

-- Trimming before lines are appended loses nothing that trimming after it would keep.
pub trim_lines-append :
    (xs ys : List LineData) → trim_lines (trim_lines xs ++ ys) ≡ trim_lines (xs ++ ys)
trim_lines-append xs ys =
    let over = length xs - 500 in
    let cut : trim_lines xs ++ ys ≡ drop over (xs ++ ys) =
      ap (λ zs. zs ++ ys) (trim_lines-drop xs) ∙ sym (drop-append_le over xs ys (omega arith)) in
    let sum : length (xs ++ ys) - 500 ≡ over + (length (drop over (xs ++ ys)) - 500) =
      omega (arith, length-drop over (xs ++ ys), length-append xs ys) in
    ap trim_lines cut
    ∙ trim_lines-drop (drop over (xs ++ ys))
    ∙ drop-drop (length (drop over (xs ++ ys)) - 500) over (length (xs ++ ys) - 500) (xs ++ ys) sum
    ∙ sym (trim_lines-drop (xs ++ ys))

pub trim_twice : (xs : List LineData) → trim_lines (trim_lines xs) ≡ trim_lines xs
trim_twice xs =
    sym (ap trim_lines (append-nil (trim_lines xs)))
    ∙ trim_lines-append xs []
    ∙ ap trim_lines (append-nil xs)

pub length-trim_lines : (xs : List LineData) → length (trim_lines xs) ≤ 500
length-trim_lines xs =
    omega (arith, ap length (trim_lines-drop xs), length-drop (length xs - 500) xs)

-- The line that a message makes, where it is delivered.
unfoldable pub new_line : Host → WebMessage → Translator → LineData
new_line h msg t =
    let (buffer, t') = find_or_create h msg.server_tag msg.target t in
    (make_line h msg buffer.pointer t').0

-- The lines of the buffer under a key; none where there is no buffer.
unfoldable pub lines_of : Bytes → Translator → List LineData
lines_of key t = elim (lookup key t.buffers) [ none ↦ [] | some b ↦ b.lines ]

create_fresh :
    (h : Host) (tag target topic : Bytes) (t : Translator)
    → lookup (buffer_key h tag target) t.buffers ≡ none
    → create_buffer_with_topic h tag target topic t
      ≡ add_buffer h (buffer_key h tag target) (channel_buffer tag target topic) t
unfolding create_buffer_with_topic with_existing
create_fresh h tag target topic t free = rw (create_buffer_with_topic, free)

-- Finding a buffer that is there changes nothing; one that is not there is added.
pub find_fresh :
    (h : Host) (tag target : Bytes) (t : Translator)
    → lookup (buffer_key h tag target) t.buffers ≡ none
    → find_or_create h tag target t
      ≡ add_buffer h (buffer_key h tag target) (channel_buffer tag target []) t
unfolding find_or_create ensure_buffer
find_fresh h tag target t free = rw (find_or_create, free) (create_fresh h tag target [] t free)

pub find_found :
    (h : Host) (tag target : Bytes) (t : Translator) (b : BufferState)
    → lookup (buffer_key h tag target) t.buffers ≡ some b
    → find_or_create h tag target t ≡ (b, t)
unfolding find_or_create
find_found h tag target t b found = rw (find_or_create, found)

pub found_lines :
    (h : Host) (tag target : Bytes) (t : Translator)
    → (find_or_create h tag target t).0.lines ≡ lines_of (buffer_key h tag target) t
unfolding lines_of add_buffer generate_pointer
found_lines h tag target t = elim (Option-cases (lookup (buffer_key h tag target) t.buffers)) [
  | inl free ↦ rw (find_fresh h tag target t free, lines_of, free)
  | inr (b, found) ↦ rw (find_found h tag target t b found, lines_of, found)
]

-- The lines under a key after an entry is written.
pub lines_of-insert :
    (key k : Bytes) (b : BufferState) (t : Translator) (n : ℤ) (r : ℕ)
    → lines_of key (record { buffers = insert k b t.buffers; next_buffer_num = n; reads = r })
      ≡ (if str_eq k key then b.lines else lines_of key t)
unfolding lines_of
lines_of-insert key k b t n r = elim (Bool-cases (str_eq k key)) [
  | inl same ↦ rw (lines_of, lookup-insert, same)
  | inr other ↦ rw (lines_of, lookup-insert, other)
]

pub fresh_lines :
    (k j : Bytes) (t : Translator)
    → lookup k t.buffers ≡ none
    → (if str_eq k j then [] else lines_of j t) ≡ lines_of j t
unfolding lines_of
fresh_lines k j t free = elim (Bool-cases (str_eq k j)) [
  | inl same ↦
      let free' : lookup j t.buffers ≡ none =
        ap (λ i. lookup i t.buffers) (sym ((str_eq_iff k j).0 same)) ∙ free in
      rw (same, lines_of, free')
  | inr other ↦ rw other
]

pub kept_lines :
    (h : Host) (tag target key : Bytes) (t : Translator)
    → lines_of key (find_or_create h tag target t).1 ≡ lines_of key t
unfolding add_buffer generate_pointer
kept_lines h tag target key t =
    let k = buffer_key h tag target in
    elim (Option-cases (lookup k t.buffers)) [
      | inl free ↦ rw (find_fresh h tag target t free, lines_of-insert) (fresh_lines k key t free)
      | inr (b, found) ↦ rw (find_found h tag target t b found)
    ]

-- A message appends its line to the buffer of its server and target, which keeps the last 500,
-- and leaves the lines of every other buffer as they are.
pub lines_of-erssi_message_to_line :
    (h : Host) (msg : WebMessage) (key : Bytes) (t : Translator)
    → lines_of key (erssi_message_to_line h msg t).1 ≡ (
        if str_eq (buffer_key h msg.server_tag msg.target) key
        then trim_lines (lines_of key t ++ (new_line h msg t ∷ []))
        else lines_of key t)
unfolding erssi_message_to_line make_line generate_pointer new_line
lines_of-erssi_message_to_line h msg key t =
    let k = buffer_key h msg.server_tag msg.target in
    let t' = (find_or_create h msg.server_tag msg.target t).1 in
    elim (Bool-cases (str_eq k key)) [
      | inl same ↦
          lines_of-insert key k _ t' _ _
          ∙ rw same (
              ap (λ ls. trim_lines (ls ++ (new_line h msg t ∷ [])))
                (found_lines h msg.server_tag msg.target t
                  ∙ ap (λ j. lines_of j t) ((str_eq_iff k key).0 same)))
      | inr other ↦
          lines_of-insert key k _ t' _ _ ∙ rw other (kept_lines h msg.server_tag msg.target key t)
    ]

-- A run of messages, in the order in which they are handled.
unfoldable pub deliver : Host → List WebMessage → Translator → Translator
deliver h [] t = t
deliver h (m ∷ ms) t = deliver h ms (erssi_message_to_line h m t).1

-- All the lines that such a run makes for a key, oldest first.
unfoldable pub delivered : Host → Bytes → List WebMessage → Translator → List LineData
delivered h key [] t = []
delivered h key (m ∷ ms) t =
    let rest = delivered h key ms (erssi_message_to_line h m t).1 in
    if str_eq (buffer_key h m.server_tag m.target) key then new_line h m t ∷ rest else rest

deliver_lines :
    (h : Host) (key : Bytes) (ms : List WebMessage) (t : Translator)
    → trim_lines (lines_of key t) ≡ lines_of key t
    → lines_of key (deliver h ms t) ≡ trim_lines (lines_of key t ++ delivered h key ms t)
unfolding deliver delivered
deliver_lines h key [] t full = sym (ap trim_lines (append-nil (lines_of key t)) ∙ full)
deliver_lines h key (m ∷ ms) t full =
    let k = buffer_key h m.server_tag m.target in
    let t' = (erssi_message_to_line h m t).1 in
    let one = lines_of-erssi_message_to_line h m key t in
    elim (Bool-cases (str_eq k key)) [
      | inl same ↦
          let line = new_line h m t in
          let now : lines_of key t' ≡ trim_lines (lines_of key t ++ (line ∷ [])) =
            one ∙ rw same refl in
          let again : trim_lines (lines_of key t') ≡ lines_of key t' =
            ap trim_lines now ∙ trim_twice (lines_of key t ++ (line ∷ [])) ∙ sym now in
          deliver_lines h key ms t' again
          ∙ ap (λ ls. trim_lines (ls ++ delivered h key ms t')) now
          ∙ trim_lines-append (lines_of key t ++ (line ∷ [])) (delivered h key ms t')
          ∙ rw (same, append_assoc) refl
      | inr other ↦
          let now : lines_of key t' ≡ lines_of key t = one ∙ rw other refl in
          deliver_lines h key ms t' (ap trim_lines now ∙ full ∙ sym now)
          ∙ ap (λ ls. trim_lines (ls ++ delivered h key ms t')) now
          ∙ rw other refl
    ]

-- After any run of messages, a buffer holds the last 500 of all the lines that were delivered to
-- it, oldest first, whatever was delivered to other buffers in between.
pub lines_of-deliver :
    (h : Host) (key : Bytes) (ms : List WebMessage)
    → lines_of key (deliver h ms new_translator) ≡ trim_lines (delivered h key ms new_translator)
unfolding delivered lines_of lookup
lines_of-deliver h key ms = deliver_lines h key ms new_translator (unfold trim_lines in refl)
