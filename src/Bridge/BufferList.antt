-- ===== src/Bridge/BufferList.antt =====
-- internal/bridge/bridge.go: the list of buffers that a client gets after a run.
use erssi_lith_bridge.Base.{
  ℕ, zero, suc, ◌<◌, ◌-◌, ◌^◌, ◌≡◌, refl, sym, ap, ◌∙◌, false, List, [], ◌∷◌, map, some, Bytes,
  length, length-map, Bool-cases, inl, inr, All, All-mono, get_elem?,
}
use erssi_lith_bridge.Proto.Create.{create_buffers_hdata_with_id}
use erssi_lith_bridge.Translator.State.{BufferState, Host}
use erssi_lith_bridge.Translator.Views.{
  lt_int, insert_sorted, sort_buffers, buffer_data, get_all_buffers,
}
use erssi_lith_bridge.Translator.Lookup.{IsRange}
use erssi_lith_bridge.Translator.Order.{values, lt_int-asym, lt_int_reaches, sort_buffers_any_order}
use erssi_lith_bridge.Bridge.State.{new_bridge}
use erssi_lith_bridge.Bridge.Events.{Event, run}
use erssi_lith_bridge.Bridge.Runs.{run-HasNumbers, run-IsMap}

-- No buffer has a smaller number than one before it.
abbrev pub IsAscending : List BufferState → Type 0
IsAscending [] = Unit
IsAscending (b ∷ bs) =
    All (λ (c : BufferState). lt_int c.number b.number ≡ false) bs × IsAscending bs

abbrev pub IsAmong : List BufferState → BufferState → Type 0
IsAmong bs b = (i : ℕ) × (get_elem? bs i ≡ some b)

All-insert_sorted :
    (P : BufferState → Type 0) (b : BufferState) (l : List BufferState)
    → P b
    → All P l
    → All P (insert_sorted b l)
unfolding insert_sorted
All-insert_sorted P b [] p h = (p, tt)
All-insert_sorted P b (c ∷ cs) p h = elim (Bool-cases (lt_int c.number b.number)) [
  | inl less ↦ rw less (h.0, All-insert_sorted P b cs p h.1)
  | inr more ↦ rw more (p, h)
]

insert_sorted-IsAscending :
    (b : BufferState) (l : List BufferState) → IsAscending l → IsAscending (insert_sorted b l)
unfolding insert_sorted
insert_sorted-IsAscending b [] h = (tt, tt)
insert_sorted-IsAscending b (c ∷ cs) h = elim (Bool-cases (lt_int c.number b.number)) [
  | inl less ↦ rw less (
    All-insert_sorted (λ (d : BufferState). lt_int d.number c.number ≡ false) b cs
        (lt_int-asym c.number b.number less) h.0,
    insert_sorted-IsAscending b cs h.1,
  )
  | inr more ↦ rw more (
    (
      more,
      All-mono (λ (d : BufferState). lt_int d.number c.number ≡ false)
          (λ (d : BufferState). lt_int d.number b.number ≡ false) cs
          (λ d q. lt_int_reaches b.number c.number d.number more q) h.0,
    ),
    h,
  )
]

sort_buffers-IsAscending : (l : List BufferState) → IsAscending (sort_buffers l)
unfolding sort_buffers
sort_buffers-IsAscending [] = tt
sort_buffers-IsAscending (b ∷ l) =
    insert_sorted-IsAscending b (sort_buffers l) (sort_buffers-IsAscending l)

length-insert_sorted :
    (b : BufferState) (l : List BufferState) → length (insert_sorted b l) ≡ suc (length l)
unfolding insert_sorted
length-insert_sorted b [] = refl
length-insert_sorted b (c ∷ cs) = elim (Bool-cases (lt_int c.number b.number)) [
  | inl less ↦ rw less (ap suc (length-insert_sorted b cs))
  | inr more ↦ rw more refl
]

length-sort_buffers : (l : List BufferState) → length (sort_buffers l) ≡ length l
unfolding sort_buffers
length-sort_buffers [] = refl
length-sort_buffers (b ∷ l) =
    length-insert_sorted b (sort_buffers l) ∙ ap suc (length-sort_buffers l)

insert_sorted_self : (b : BufferState) (l : List BufferState) → IsAmong (insert_sorted b l) b
unfolding insert_sorted
insert_sorted_self b [] = (0, refl)
insert_sorted_self b (c ∷ cs) = elim (Bool-cases (lt_int c.number b.number)) [
  | inl less ↦ let (i, e) = insert_sorted_self b cs in rw less (suc i, e)
  | inr more ↦ rw more (0, refl)
]

IsAmong-insert_sorted :
    (b c : BufferState) (l : List BufferState) → IsAmong l c → IsAmong (insert_sorted b l) c
unfolding insert_sorted
IsAmong-insert_sorted b c [] (i, e) = cc
IsAmong-insert_sorted b c (d ∷ ds) (zero, e) = elim (Bool-cases (lt_int d.number b.number)) [
  | inl less ↦ rw less (0, e)
  | inr more ↦ rw more (1, e)
]
IsAmong-insert_sorted b c (d ∷ ds) (suc i, e) =
    let (j, f) = IsAmong-insert_sorted b c ds (i, e) in
    elim (Bool-cases (lt_int d.number b.number)) [
      | inl less ↦ rw less (suc j, f)
      | inr more ↦ rw more (suc (suc i), e)
    ]

sort_buffers-All :
    (m : List (Bytes × BufferState))
    → All (λ (e : Bytes × BufferState). IsAmong (sort_buffers (values m)) e.1) m
unfolding sort_buffers
sort_buffers-All [] = tt
sort_buffers-All ((k, b) ∷ m) = (
  insert_sorted_self b (sort_buffers (values m)),
  All-mono (λ (e : Bytes × BufferState). IsAmong (sort_buffers (values m)) e.1)
      (λ (e : Bytes × BufferState). IsAmong (sort_buffers (values ((k, b) ∷ m))) e.1) m
      (λ e h. IsAmong-insert_sorted b e.1 (sort_buffers (values m)) h) (sort_buffers-All m),
)

-- The buffers after a run, in the order of their numbers.
abbrev pub sorted_buffers : Host → List Event → List BufferState
sorted_buffers h es = sort_buffers (values (run h es new_bridge).0.translator.buffers)

-- After any run that has made fewer than 2^31 - 1 buffers, the list of buffers that a client gets is
-- the same in whatever order the map is ranged over: it has as many entries as the map, every buffer
-- of the map is in it, and they are in the order of their numbers.
pub get_all_buffers_any_order :
    (h : Host) (es : List Event) (id : Bytes) (entries : List (Bytes × BufferState))
    → length (run h es new_bridge).0.translator.buffers < 2 ^ 31 - 1
    → IsRange entries (run h es new_bridge).0.translator.buffers
    → (get_all_buffers id entries
        ≡ create_buffers_hdata_with_id (map buffer_data (sorted_buffers h es)) id)
      × IsAscending (sorted_buffers h es)
      × (length (sorted_buffers h es) ≡ length (run h es new_bridge).0.translator.buffers)
      × All
          (λ (e : Bytes × BufferState). IsAmong (sorted_buffers h es) e.1)
          (run h es new_bridge).0.translator.buffers
unfolding get_all_buffers
get_all_buffers_any_order h es id entries room r =
    let m = (run h es new_bridge).0.translator.buffers in
    let numbers = run-HasNumbers h es room in
    (
      ap (λ bs. create_buffers_hdata_with_id (map buffer_data bs) id)
          (sort_buffers_any_order m entries (run-IsMap h es) r.is_map
            (λ j k v w f g q. numbers.distinct j k v w (sym (r.same j) ∙ f) (sym (r.same k) ∙ g) q)
            r.same),
      sort_buffers-IsAscending (values m),
      length-sort_buffers (values m) ∙ length-map m (λ (e : Bytes × BufferState). e.1),
      sort_buffers-All m,
    )
