-- ===== src/Translator/Titles.antt =====
-- internal/translator/translator.go: no operation that the bridge calls changes the title of a buffer
-- that is there.
use mathlib.Core.Path.{subst}
use erssi_lith_bridge.Base.{
  ◌≡◌, refl, sym, ap, ◌∙◌, List, none, some, Bytes, Option-cases, Bool-cases, inl, inr,
}
use erssi_lith_bridge.Base.Text.{str_eq, str_eq_iff}
use erssi_lith_bridge.Base.Assoc.{lookup, insert, lookup-insert}
use erssi_lith_bridge.Erssi.Types.{WebMessage, NickInfo}
use erssi_lith_bridge.Translator.State.{BufferState, Translator, Host, buffer_key, generate_pointer}
use erssi_lith_bridge.Translator.Buffers.{
  add_buffer, ensure_buffer, ensure_server_buffer, find_or_create, make_line, erssi_message_to_line,
  make_nicks, erssi_nicklist_to_weechat,
}
use erssi_lith_bridge.Translator.Changes.{make_nicks-Changes, find_or_create-Yields}
use erssi_lith_bridge.Translator.History.{find_fresh, find_found}
use erssi_lith_bridge.Translator.Kept.{ensure_buffer-find}

-- A buffer under the key is there later, with its title.
abbrev pub KeepsTitle : Bytes → List (Bytes × BufferState) → List (Bytes × BufferState) → Type 0
KeepsTitle key m m' =
    (b : BufferState)
    → lookup key m ≡ some b
    → (c : BufferState) × (lookup key m' ≡ some c) × (c.title ≡ b.title)

pub same-KeepsTitle : (key : Bytes) (m : List (Bytes × BufferState)) → KeepsTitle key m m
same-KeepsTitle key m b found = (b, found, refl)

pub then-KeepsTitle :
    (key : Bytes) (m n o : List (Bytes × BufferState))
    → KeepsTitle key m n
    → KeepsTitle key n o
    → KeepsTitle key m o
then-KeepsTitle key m n o first second b found =
    let (c, there, same) = first b found in
    let (d, there', same') = second c there in (d, there', same' ∙ same)

-- An entry is written that has the title of what stood there.
insert-KeepsTitle :
    (key k : Bytes) (new : BufferState) (m : List (Bytes × BufferState))
    → ((b : BufferState) → lookup k m ≡ some b → new.title ≡ b.title)
    → KeepsTitle key m (insert k new m)
insert-KeepsTitle key k new m titled b found = elim (Bool-cases (str_eq k key)) [
  | inl same ↦ (
    new,
    lookup-insert k key new m ∙ rw same refl,
    titled b (ap (λ i. lookup i m) ((str_eq_iff k key).0 same) ∙ found),
  )
  | inr other ↦ (b, lookup-insert k key new m ∙ rw other found, refl)
]

module _ (h : Host) (key : Bytes) where
  add-KeepsTitle :
      (k : Bytes) (new : BufferState) (m : List (Bytes × BufferState))
      → lookup k m ≡ none
      → KeepsTitle key m (insert k new m)
  add-KeepsTitle k new m free = insert-KeepsTitle key k new m (λ b found. cc)

  find_or_create-KeepsTitle :
      (tag target : Bytes) (t : Translator)
      → KeepsTitle key t.buffers (find_or_create h tag target t).1.buffers
  unfolding add_buffer generate_pointer
  find_or_create-KeepsTitle tag target t =
      let k = buffer_key h tag target in
      elim (Option-cases (lookup k t.buffers)) [
        | inl free ↦ rw (find_fresh h tag target t free) (add-KeepsTitle k _ t.buffers free)
        | inr (b, found) ↦ rw (find_found h tag target t b found) (same-KeepsTitle key t.buffers)
      ]

  pub ensure_buffer-KeepsTitle :
      (tag target : Bytes) (t : Translator)
      → KeepsTitle key t.buffers (ensure_buffer h tag target t).1.buffers
  ensure_buffer-KeepsTitle tag target t =
      subst (λ (u : Translator). KeepsTitle key t.buffers u.buffers)
        (sym (ensure_buffer-find h tag target t)) (find_or_create-KeepsTitle tag target t)

  pub ensure_server_buffer-KeepsTitle :
      (tag : Bytes) (t : Translator)
      → KeepsTitle key t.buffers (ensure_server_buffer h tag t).1.buffers
  unfolding ensure_server_buffer add_buffer generate_pointer
  ensure_server_buffer-KeepsTitle tag t = elim (Option-cases (lookup tag t.buffers)) [
    | inl free ↦ rw (ensure_server_buffer, free) (add-KeepsTitle tag _ t.buffers free)
    | inr (b, found) ↦ rw (ensure_server_buffer, found) (same-KeepsTitle key t.buffers)
  ]

  -- The buffer that was found is written back with new lines or nicks.
  edit-KeepsTitle :
      (tag target : Bytes) (new : BufferState) (t : Translator)
      → new.title ≡ (find_or_create h tag target t).0.title
      → KeepsTitle key t.buffers
          (insert (buffer_key h tag target) new (find_or_create h tag target t).1.buffers)
  edit-KeepsTitle tag target new t titled =
      let (buffer, t') = find_or_create h tag target t in
      let k = buffer_key h tag target in
      then-KeepsTitle key t.buffers t'.buffers (insert k new t'.buffers)
        (find_or_create-KeepsTitle tag target t)
        (insert-KeepsTitle key k new t'.buffers λ b found.
          let there = (find_or_create-Yields h tag target t).1 in
          let same : buffer ≡ b = cc in titled ∙ ap (λ (c : BufferState). c.title) same)

  pub erssi_message_to_line-KeepsTitle :
      (msg : WebMessage) (t : Translator)
      → KeepsTitle key t.buffers (erssi_message_to_line h msg t).1.buffers
  unfolding erssi_message_to_line make_line generate_pointer
  erssi_message_to_line-KeepsTitle msg t = edit-KeepsTitle msg.server_tag msg.target _ t refl

  pub erssi_nicklist_to_weechat-KeepsTitle :
      (msg : WebMessage) (nicks : List NickInfo) (t : Translator)
      → KeepsTitle key t.buffers (erssi_nicklist_to_weechat h msg nicks t).1.buffers
  unfolding erssi_nicklist_to_weechat
  erssi_nicklist_to_weechat-KeepsTitle msg nicks t =
      let (buffer, t') = find_or_create h msg.server_tag msg.target t in
      let new = record buffer { nicks = (make_nicks h nicks t').0 } in
      subst
        (λ (m : List (Bytes × BufferState)).
          KeepsTitle key t.buffers (insert (buffer_key h msg.server_tag msg.target) new m))
        (sym (make_nicks-Changes h nicks t').1)
        (edit-KeepsTitle msg.server_tag msg.target new t refl)
