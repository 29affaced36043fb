-- ===== src/Translator/Kept.antt =====
-- internal/translator/translator.go: the operations that leave the lines of every buffer as they are.
use erssi_lith_bridge.Base.{
  ◌≡◌, refl, sym, ap, ◌∙◌, List, [], none, some, Bytes, Option-cases, Bool-cases, inl, inr,
}
use erssi_lith_bridge.Base.Text.{str_eq, str_eq_iff}
use erssi_lith_bridge.Base.Assoc.{lookup}
use erssi_lith_bridge.Erssi.Types.{WebMessage, NickInfo}
use erssi_lith_bridge.Translator.State.{BufferState, Translator, Host, buffer_key, generate_pointer}
use erssi_lith_bridge.Translator.Buffers.{
  add_buffer, update_title, with_existing, create_buffer_with_topic, ensure_buffer,
  ensure_server_buffer, find_or_create, make_nicks, erssi_nicklist_to_weechat,
}
use erssi_lith_bridge.Translator.Changes.{make_nicks-Changes}
use erssi_lith_bridge.Translator.History.{
  lines_of, find_fresh, find_found, found_lines, kept_lines, lines_of-insert, fresh_lines,
}

module _ (h : Host) where
  pub ensure_buffer-find :
      (tag target : Bytes) (t : Translator)
      → (ensure_buffer h tag target t).1 ≡ (find_or_create h tag target t).1
  unfolding ensure_buffer find_or_create create_buffer_with_topic with_existing update_title
  ensure_buffer-find tag target t =
      elim (Option-cases (lookup (buffer_key h tag target) t.buffers)) [
        | inl free ↦
            ap (λ o. (with_existing h tag target [] o t).1) free
            ∙ ap (λ (r : BufferState × Translator). r.1) (sym (find_fresh h tag target t free))
        | inr (b, found) ↦
            ap (λ o. (with_existing h tag target [] o t).1) found
            ∙ ap (λ (r : BufferState × Translator). r.1) (sym (find_found h tag target t b found))
      ]

  pub lines_of-ensure_buffer :
      (tag target key : Bytes) (t : Translator)
      → lines_of key (ensure_buffer h tag target t).1 ≡ lines_of key t
  lines_of-ensure_buffer tag target key t =
      ap (lines_of key) (ensure_buffer-find tag target t) ∙ kept_lines h tag target key t

  pub lines_of-ensure_server_buffer :
      (tag key : Bytes) (t : Translator)
      → lines_of key (ensure_server_buffer h tag t).1 ≡ lines_of key t
  unfolding ensure_server_buffer add_buffer generate_pointer
  lines_of-ensure_server_buffer tag key t = elim (Option-cases (lookup tag t.buffers)) [
    | inl free ↦ rw (ensure_server_buffer, free, lines_of-insert) (fresh_lines tag key t free)
    | inr (b, found) ↦ rw (ensure_server_buffer, found) refl
  ]

  pub lines_of-erssi_nicklist_to_weechat :
      (msg : WebMessage) (nicks : List NickInfo) (key : Bytes) (t : Translator)
      → lines_of key (erssi_nicklist_to_weechat h msg nicks t).1 ≡ lines_of key t
  unfolding erssi_nicklist_to_weechat lines_of
  lines_of-erssi_nicklist_to_weechat msg nicks key t =
      let k = buffer_key h msg.server_tag msg.target in
      let t' = (find_or_create h msg.server_tag msg.target t).1 in
      let same = (make_nicks-Changes h nicks t').1 in
      let buffer = (find_or_create h msg.server_tag msg.target t).0 in
      let (nick_data, u) = make_nicks h nicks t' in
      lines_of-insert key k (record buffer { nicks = nick_data }) u u.next_buffer_num u.reads
      ∙ elim (Bool-cases (str_eq k key)) [
        | inl here ↦ rw here (
            found_lines h msg.server_tag msg.target t
            ∙ ap (λ j. lines_of j t) ((str_eq_iff k key).0 here))
        | inr other ↦ rw other (
            ap (λ bs. elim (lookup key bs) [ none ↦ [] | some b ↦ b.lines ]) same
            ∙ kept_lines h msg.server_tag msg.target key t)
      ]
