-- ===== src/Translator/Changes.antt =====
-- Every operation of the translator is a sequence of small changes: a reading of the clock, a new
-- buffer, or new contents for a buffer that keeps its identity.
use erssi_lith_bridge.Base.{
  ◌+◌, ◌≡◌, refl, ap, ◌∙◌, List, [], ◌∷◌, none, some, Bytes, Option-cases, inl, inr,
}
use erssi_lith_bridge.Base.Int.{ℤ, incr_int32}
use erssi_lith_bridge.Base.Assoc.{lookup, insert}
use erssi_lith_bridge.Base.Assoc.Distinct.{lookup-insert_self}
use erssi_lith_bridge.Erssi.Types.{WebMessage, NickInfo}
use erssi_lith_bridge.Translator.State.{
  BufferState, Translator, Host, pointer_text, buffer_key, generate_pointer,
}
use erssi_lith_bridge.Translator.Buffers.{
  add_buffer, update_title, channel_buffer, server_buffer, with_existing, create_buffer_with_topic,
  ensure_buffer, ensure_server_buffer, find_or_create, make_line, erssi_message_to_line, make_nicks,
  erssi_nicklist_to_weechat,
}

-- What never changes of a buffer: all but its title, lines and nicks.
pub record SameBuffer (b c : BufferState) : Type 0 where
  pub pointer : b.pointer ≡ c.pointer
  pub number : b.number ≡ c.number
  pub server_tag : b.server_tag ≡ c.server_tag
  pub name : b.name ≡ c.name
  pub short_name : b.short_name ≡ c.short_name
  pub is_server : b.is_server ≡ c.is_server

pub data Change (h : Host) (t u : Translator) : Type 0 where
  tick : u ≡ record t { reads = t.reads + 1 } → Change h t u
  add :
      (key : Bytes) (b : BufferState)
      → lookup key t.buffers ≡ none
      → b.pointer ≡ pointer_text (h.clock t.reads)
      → b.number ≡ t.next_buffer_num
      → u ≡ record {
        buffers = insert key b t.buffers;
        next_buffer_num = incr_int32 t.next_buffer_num;
        reads = t.reads + 1;
      }
      → Change h t u
  edit :
      (key : Bytes) (b c : BufferState)
      → lookup key t.buffers ≡ some b
      → SameBuffer b c
      → u ≡ record t { buffers = insert key c t.buffers }
      → Change h t u

pub data Changes (h : Host) (t : Translator) : Translator → Type 0 where
  here : Changes h t t
  next : {u v : Translator} → Changes h t u → Change h u v → Changes h t v

pub then-Changes : {h : Host} {t u v : Translator} → Changes h t u → Changes h u v → Changes h t v
then-Changes c here = c
then-Changes c (next d s) = next (then-Changes c d) s

-- An operation that returns a buffer: it makes changes, and the buffer stands under the key.
abbrev pub Yields : Host → Bytes → Translator → BufferState × Translator → Type 0
Yields h key t r = Changes h t r.1 × (lookup key r.1.buffers ≡ some r.0)

module _ (h : Host) where
  add_buffer-Yields :
      (key : Bytes) (make : Bytes → ℤ → BufferState) (t : Translator)
      → lookup key t.buffers ≡ none
      → ((p : Bytes) (n : ℤ) → ((make p n).pointer ≡ p) × ((make p n).number ≡ n))
      → Yields h key t (add_buffer h key make t)
  unfolding add_buffer generate_pointer
  add_buffer-Yields key make t free fields =
      let ptr = pointer_text (h.clock t.reads) in
      (
        next here (
            add key (make ptr t.next_buffer_num) free (fields ptr t.next_buffer_num).0
              (fields ptr t.next_buffer_num).1 refl),
        lookup-insert_self key (make ptr t.next_buffer_num) t.buffers,
      )

  update_title-Yields :
      (key topic : Bytes) (b : BufferState) (t : Translator)
      → lookup key t.buffers ≡ some b
      → Yields h key t (update_title key topic b t)
  unfolding update_title
  update_title-Yields key [] b t e = (here, e)
  update_title-Yields key (c ∷ s) b t e =
      let new = record b { title = c ∷ s } in
      (
        next here (
            edit key b new e
              (record {
                pointer = refl;
                number = refl;
                server_tag = refl;
                name = refl;
                short_name = refl;
                is_server = refl;
              })
              refl),
        lookup-insert_self key new t.buffers,
      )

  pub create_buffer_with_topic-Yields :
      (server_tag target topic : Bytes) (t : Translator)
      → Yields h
          (buffer_key h server_tag target)
          t
          (create_buffer_with_topic h server_tag target topic t)
  unfolding create_buffer_with_topic with_existing
  create_buffer_with_topic-Yields server_tag target topic t =
      let key = buffer_key h server_tag target in
      elim (Option-cases (lookup key t.buffers)) [
        | inl free ↦
            rw (free, with_existing)
              (add_buffer-Yields key (channel_buffer server_tag target topic) t free
                (λ p n. (refl, refl)))
        | inr (b, found) ↦ rw (found, with_existing) (update_title-Yields key topic b t found)
      ]

  pub ensure_buffer-Yields :
      (server_tag target : Bytes) (t : Translator)
      → Yields h (buffer_key h server_tag target) t (ensure_buffer h server_tag target t)
  unfolding ensure_buffer
  ensure_buffer-Yields server_tag target t = create_buffer_with_topic-Yields server_tag target [] t

  pub ensure_server_buffer-Yields :
      (server_tag : Bytes) (t : Translator)
      → Yields h server_tag t (ensure_server_buffer h server_tag t)
  unfolding ensure_server_buffer
  ensure_server_buffer-Yields server_tag t = elim (Option-cases (lookup server_tag t.buffers)) [
    | inl free ↦
        rw (ensure_server_buffer, free)
          (add_buffer-Yields server_tag (server_buffer server_tag) t free (λ p n. (refl, refl)))
    | inr (b, found) ↦ rw (ensure_server_buffer, found) (here, found)
  ]

  pub find_or_create-Yields :
      (server_tag target : Bytes) (t : Translator)
      → Yields h (buffer_key h server_tag target) t (find_or_create h server_tag target t)
  unfolding find_or_create
  find_or_create-Yields server_tag target t =
      let key = buffer_key h server_tag target in
      elim (Option-cases (lookup key t.buffers)) [
        | inl free ↦ rw (find_or_create, free) (ensure_buffer-Yields server_tag target t)
        | inr (b, found) ↦ rw (find_or_create, found) (here, found)
      ]

  pub erssi_message_to_line-Changes :
      (msg : WebMessage) (t : Translator) → Changes h t (erssi_message_to_line h msg t).1
  unfolding erssi_message_to_line make_line generate_pointer
  erssi_message_to_line-Changes msg t =
      let (changes, found) = find_or_create-Yields msg.server_tag msg.target t in
      next (next (next changes (tick refl)) (tick refl)) (
        edit (buffer_key h msg.server_tag msg.target)
          (find_or_create h msg.server_tag msg.target t).0 _ found
          (record {
            pointer = refl;
            number = refl;
            server_tag = refl;
            name = refl;
            short_name = refl;
            is_server = refl;
          })
          refl)

  pub make_nicks-Changes :
      (ns : List NickInfo) (t : Translator)
      → Changes h t (make_nicks h ns t).1 × ((make_nicks h ns t).1.buffers ≡ t.buffers)
  unfolding make_nicks generate_pointer
  make_nicks-Changes [] t = (here, refl)
  make_nicks-Changes (n ∷ ns) t =
      let (changes, same) = make_nicks-Changes ns (record t { reads = t.reads + 1 }) in
      (then-Changes (next here (tick refl)) changes, same)

  pub erssi_nicklist_to_weechat-Changes :
      (msg : WebMessage) (ns : List NickInfo) (t : Translator)
      → Changes h t (erssi_nicklist_to_weechat h msg ns t).1
  unfolding erssi_nicklist_to_weechat
  erssi_nicklist_to_weechat-Changes msg ns t =
      let key = buffer_key h msg.server_tag msg.target in
      let (changes, found) = find_or_create-Yields msg.server_tag msg.target t in
      let (more, same) = make_nicks-Changes ns (find_or_create h msg.server_tag msg.target t).1 in
      next (then-Changes changes more) (
        edit key (find_or_create h msg.server_tag msg.target t).0 _ (ap (lookup key) same ∙ found)
          (record {
            pointer = refl;
            number = refl;
            server_tag = refl;
            name = refl;
            short_name = refl;
            is_server = refl;
          })
          refl)
