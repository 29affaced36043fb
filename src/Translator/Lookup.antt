-- ===== src/Translator/Lookup.antt =====
-- Finding a buffer by its pointer, in whatever order the map is ranged over.
use mathlib.Core.Path.{subst}
use erssi_lith_bridge.Base.{
  ◌≡◌, ◌≢◌, refl, sym, ap, ◌∙◌, true, false, List, [], ◌∷◌, none, some, Bytes, ℕ, ◌-◌, ok, err,
  panic, length, drop, drop_zero, ltb, Bool-cases, Option-cases, inl, inr, arith,
}
use erssi_lith_bridge.Base.Int.{pos, negsuc}
use erssi_lith_bridge.Proto.Create.{create_lines_hdata_with_id}
use erssi_lith_bridge.Base.Text.{
  str_eq, str_eq_iff, str_eq_refl, Lacks, cut, cut-append, cut-Lacks, to_lower,
}
use erssi_lith_bridge.Base.Assoc.{lookup}
use erssi_lith_bridge.Erssi.Types.{message, zero_message}
use erssi_lith_bridge.Translator.State.{BufferState, Translator, Host, buffer_key}
use erssi_lith_bridge.Translator.Views.{
  buffer_not_found, find_pointer, get_buffer_lines, last_lines, split_key, input_to_erssi_command,
  get_buffer_info,
}
use erssi_lith_bridge.Translator.Identity.{HasPointers}

-- No key stands twice in the list.
abbrev pub IsMap : List (Bytes × BufferState) → Type 0
IsMap [] = Unit
IsMap ((k, b) ∷ m) = (lookup k m ≡ none) × IsMap m

-- An order in which the entries of a map may be ranged over.
pub record IsRange (entries m : List (Bytes × BufferState)) : Type 0 where
  pub is_map : IsMap entries
  pub same : (key : Bytes) → lookup key entries ≡ lookup key m

-- the entries of a list with distinct pointers, and its tail
pub tail_lookup :
    (j k : Bytes) (w b : BufferState) (m : List (Bytes × BufferState))
    → lookup j m ≡ none
    → lookup k m ≡ some b
    → lookup k ((j, w) ∷ m) ≡ some b
unfolding lookup
tail_lookup j k w b m free e = elim (Bool-cases (str_eq j k)) [
  | inl same ↦
      let p : j ≡ k = (str_eq_iff j k).0 same in
      let e' : lookup j m ≡ some b = ap (λ i. lookup i m) p ∙ e in cc
  | inr other ↦ rw other e
]

tail_found :
    (j k : Bytes) (w b : BufferState) (m : List (Bytes × BufferState))
    → lookup k ((j, w) ∷ m) ≡ some b
    → str_eq w.pointer b.pointer ≡ false
    → lookup k m ≡ some b
unfolding lookup
tail_found j k w b m e differ = elim (Bool-cases (str_eq j k)) [
  | inl same ↦
      let e' : some w ≡ some b = rw same at e in
      let p : w ≡ b = cc in
      let q : str_eq w.pointer b.pointer ≡ true =
        (str_eq_iff w.pointer b.pointer).1 (ap (λ (c : BufferState). c.pointer) p) in
      cc
  | inr other ↦ rw other at e
]

abbrev OnePointer : List (Bytes × BufferState) → Type 0
OnePointer m =
    (j k : Bytes) (v w : BufferState)
    → lookup j m ≡ some v
    → lookup k m ≡ some w
    → v.pointer ≡ w.pointer
    → j ≡ k

find_pointer_lem :
    (k : Bytes) (b : BufferState) (m : List (Bytes × BufferState))
    → IsMap m
    → OnePointer m
    → lookup k m ≡ some b
    → find_pointer b.pointer m ≡ some (k, b)
unfolding find_pointer
find_pointer_lem k b [] u d e = unfold lookup in cc
find_pointer_lem k b ((j, w) ∷ m) (free, u) d e = elim (Bool-cases (str_eq w.pointer b.pointer)) [
  | inl same ↦
      let here_w : lookup j ((j, w) ∷ m) ≡ some w = unfold lookup in rw (str_eq_refl j) in
      let p : j ≡ k = d j k w b here_w e ((str_eq_iff w.pointer b.pointer).0 same) in
      let q : some w ≡ some b = sym here_w ∙ ap (λ i. lookup i ((j, w) ∷ m)) p ∙ e in
      let r : w ≡ b = cc in rw same (λ i. some (p i, r i))
  | inr other ↦ rw other (
      find_pointer_lem k b m u
        (λ i l v x f g. d i l v x (tail_lookup j i w v m free f) (tail_lookup j l w x m free g))
        (tail_found j k w b m e other))
]

module _ (h : Host) (t : Translator) (sound : HasPointers h t) where
  -- Where no two buffers have one pointer, the buffer under a key is found by its, in whatever order the map is ranged over.
  find_pointer_any_order :
      (key : Bytes) (b : BufferState) (entries : List (Bytes × BufferState))
      → IsRange entries t.buffers
      → lookup key t.buffers ≡ some b
      → find_pointer b.pointer entries ≡ some (key, b)
  find_pointer_any_order key b entries r e =
      find_pointer_lem key b entries r.is_map
        (λ j k v w f g. sound.distinct j k v w (sym (r.same j) ∙ f) (sym (r.same k) ∙ g))
        (r.same key ∙ e)

cut-buffer_key :
    (h : Host) (tag target : Bytes)
    → Lacks b'.' tag
    → cut b'.' (buffer_key h tag target) ≡ some (tag, to_lower h.unicode_lower target)
unfolding buffer_key
cut-buffer_key h tag target l = cut-append b'.' tag (to_lower h.unicode_lower target) l

-- Text that is typed into the buffer of a channel or a query goes to its server and to its target
-- in lower case, if the server's tag is not empty and has no dot; the buffer's pointer is distinct
-- from all others, so the order in which the map is ranged over does not matter.
pub input_to_erssi_command-lookup :
    (h : Host) (t : Translator) (tag target text : Bytes) (b : BufferState)
    (entries : List (Bytes × BufferState))
    → HasPointers h t
    → IsRange entries t.buffers
    → lookup (buffer_key h tag target) t.buffers ≡ some b
    → Lacks b'.' tag
    → tag ≢ []
    → input_to_erssi_command b.pointer text entries
      ≡ ok (record (zero_message message) {
        server_tag = tag;
        target = to_lower h.unicode_lower target;
        text = text;
      })
unfolding input_to_erssi_command split_key
input_to_erssi_command-lookup h t [] target text b entries s r e l nonempty = absurd (nonempty refl)
input_to_erssi_command-lookup h t (c ∷ tag) target text b entries s r e l nonempty = rw (
  find_pointer_any_order h t s (buffer_key h (c ∷ tag) target) b entries r e,
  split_key,
  cut-buffer_key h (c ∷ tag) target l,
)

-- A client that names a buffer of a channel by its pointer asks for the nicks of that channel.
pub get_buffer_info-lookup :
    (h : Host) (t : Translator) (tag target : Bytes) (b : BufferState)
    (entries : List (Bytes × BufferState))
    → HasPointers h t
    → IsRange entries t.buffers
    → lookup (buffer_key h tag target) t.buffers ≡ some b
    → Lacks b'.' tag
    → get_buffer_info b.pointer entries ≡ (tag, to_lower h.unicode_lower target)
unfolding get_buffer_info
get_buffer_info-lookup h t tag target b entries s r e l = rw (
  get_buffer_info,
  find_pointer_any_order h t s (buffer_key h tag target) b entries r e,
  cut-buffer_key h tag target l,
)

-- What is found by a pointer is an entry with that pointer.
find_pointer-found :
    (ptr k : Bytes) (b : BufferState) (m : List (Bytes × BufferState))
    → IsMap m
    → find_pointer ptr m ≡ some (k, b)
    → (lookup k m ≡ some b) × (b.pointer ≡ ptr)
unfolding find_pointer lookup
find_pointer-found ptr k b [] u e = cc
find_pointer-found ptr k b ((j, w) ∷ m) (free, u) e = elim (Bool-cases (str_eq w.pointer ptr)) [
  | inl same ↦
      let e' : some (j, w) ≡ some (k, b) = rw same at e in
      let p : j ≡ k = cc in
      let q : w ≡ b = cc in
      (
        subst (λ l. lookup l ((j, w) ∷ m) ≡ some b) p (rw (str_eq_refl j) (ap some q)),
        sym (ap (λ (c : BufferState). c.pointer) q) ∙ (str_eq_iff w.pointer ptr).0 same,
      )
  | inr other ↦
      let (there, same) = find_pointer-found ptr k b m u (rw other at e) in
      (tail_lookup j k w b m free there, same)
]

-- Text for a pointer that only buffers of servers have, whose keys have no dot, or no buffer at all, is
-- refused with the error that the buffer is not found, in whatever order the map is ranged over.
pub input_to_erssi_command-server :
    (m : List (Bytes × BufferState)) (ptr text : Bytes) (entries : List (Bytes × BufferState))
    → IsRange entries m
    → ((key : Bytes) (b : BufferState) → lookup key m ≡ some b → b.pointer ≡ ptr → Lacks b'.' key)
    → input_to_erssi_command ptr text entries ≡ err (buffer_not_found ptr)
unfolding input_to_erssi_command split_key
input_to_erssi_command-server m ptr text entries r servers =
    elim (Option-cases (find_pointer ptr entries)) [
      | inl none_has ↦ rw none_has
      | inr ((k, b), e) ↦
          let (there, same) = find_pointer-found ptr k b entries r.is_map e in
          rw (e, split_key, cut-Lacks b'.' k (servers k b (sym (r.same k) ∙ there) same))
    ]

-- A client that asks for up to n lines of a buffer by its pointer gets the last n of the lines
-- that the buffer keeps, or all where there are no more than n.
pub get_buffer_lines-lookup :
    (h : Host) (t : Translator) (key id : Bytes) (b : BufferState) (n : ℕ)
    (entries : List (Bytes × BufferState))
    → HasPointers h t
    → IsRange entries t.buffers
    → lookup key t.buffers ≡ some b
    → get_buffer_lines b.pointer (pos n) id entries
      ≡ ok (create_lines_hdata_with_id (drop (length b.lines - n) b.lines) id)
unfolding get_buffer_lines last_lines
get_buffer_lines-lookup h t key id b n entries s r e =
    rw (get_buffer_lines, find_pointer_any_order h t s key b entries r e)
      (elim (Bool-cases (ltb n (length b.lines))) [
        | inl more ↦ rw more
        | inr few ↦
            let zero_off : length b.lines - n ≡ 0 = ground arith in
            rw (few, drop_zero (length b.lines - n) b.lines zero_off)
      ])

-- A negative count makes the request for the lines of an existing buffer panic.
get_buffer_lines-negative :
    (h : Host) (t : Translator) (key id : Bytes) (b : BufferState) (n : ℕ)
    (entries : List (Bytes × BufferState))
    → HasPointers h t
    → IsRange entries t.buffers
    → lookup key t.buffers ≡ some b
    → get_buffer_lines b.pointer (negsuc n) id entries ≡ panic
unfolding get_buffer_lines last_lines
get_buffer_lines-negative h t key id b n entries s r e =
    rw (get_buffer_lines, find_pointer_any_order h t s key b entries r e)
