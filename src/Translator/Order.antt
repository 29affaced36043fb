-- ===== src/Translator/Order.antt =====
-- internal/translator/translator.go: `GetAllBuffers`, in whatever order it ranges over the map.
use erssi_lith_bridge.Base.{
  Bool, ◌≡◌, ◌≢◌, refl, sym, ap, ◌∙◌, true, false, List, [], ◌∷◌, map, none, some, Bytes,
  Bool-cases, inl, inr, arith, if◌then◌else◌,
}
use erssi_lith_bridge.Base.Int.{ℤ, pos, negsuc}
use erssi_lith_bridge.Base.Text.{str_eq, str_eq_iff, str_eq_refl}
use erssi_lith_bridge.Base.Assoc.{lookup}
use erssi_lith_bridge.Base.Assoc.Distinct.{Distinct}
use erssi_lith_bridge.Translator.State.{BufferState}
use erssi_lith_bridge.Translator.Views.{lt_int, insert_sorted, sort_buffers}
use erssi_lith_bridge.Translator.Lookup.{IsMap, tail_lookup}

abbrev Entries : Type 0
Entries = List (Bytes × BufferState)

pub lt_int-asym : (x y : ℤ) → lt_int x y ≡ true → lt_int y x ≡ false
unfolding lt_int
lt_int-asym (pos m) (pos n) h = ground arith
lt_int-asym (pos m) (negsuc n) h = cc
lt_int-asym (negsuc m) (pos n) h = refl
lt_int-asym (negsuc m) (negsuc n) h = ground arith

lt_int-total : (x y : ℤ) → x ≢ y → lt_int x y ≡ false → lt_int y x ≡ true
unfolding lt_int
lt_int-total (pos m) (pos n) apart h = let differ : m ≢ n = λ e. apart (ap pos e) in ground arith
lt_int-total (pos m) (negsuc n) apart h = refl
lt_int-total (negsuc m) (pos n) apart h = cc
lt_int-total (negsuc m) (negsuc n) apart h =
    let differ : m ≢ n = λ e. apart (ap negsuc e) in ground arith

-- What is not below y, which is not below x, is not below x.
pub lt_int_reaches : (x y z : ℤ) → lt_int y x ≡ false → lt_int z y ≡ false → lt_int z x ≡ false
unfolding lt_int
lt_int_reaches (pos l) (pos m) (pos n) p q = ground arith
lt_int_reaches (pos l) (pos m) (negsuc n) p q = cc
lt_int_reaches (pos l) (negsuc m) z p q = cc
lt_int_reaches (negsuc l) (pos m) (pos n) p q = refl
lt_int_reaches (negsuc l) (pos m) (negsuc n) p q = cc
lt_int_reaches (negsuc l) (negsuc m) (pos n) p q = refl
lt_int_reaches (negsuc l) (negsuc m) (negsuc n) p q = ground arith

lt_int_trans : (x y z : ℤ) → lt_int x y ≡ true → lt_int y z ≡ true → lt_int x z ≡ true
unfolding lt_int
lt_int_trans (pos l) (pos m) (pos n) p q = ground arith
lt_int_trans (pos l) (pos m) (negsuc n) p q = cc
lt_int_trans (pos l) (negsuc m) z p q = cc
lt_int_trans (negsuc l) (pos m) (pos n) p q = refl
lt_int_trans (negsuc l) (pos m) (negsuc n) p q = cc
lt_int_trans (negsuc l) (negsuc m) (pos n) p q = refl
lt_int_trans (negsuc l) (negsuc m) (negsuc n) p q = ground arith

insert_sorted_lt :
    (a b : BufferState) (l : List BufferState)
    → lt_int a.number b.number ≡ true
    → lt_int b.number a.number ≡ false
    → insert_sorted a (insert_sorted b l) ≡ insert_sorted b (insert_sorted a l)
unfolding insert_sorted
insert_sorted_lt a b [] ab ba = rw (ab, ba)
insert_sorted_lt a b (c ∷ cs) ab ba = elim (Bool-cases (lt_int c.number a.number)) [
  | inl ca ↦
      let cb = lt_int_trans c.number a.number b.number ca ab in
      rw (cb, ca, cb) (ap (λ l. c ∷ l) (insert_sorted_lt a b cs ab ba))
  | inr ca ↦ elim (Bool-cases (lt_int c.number b.number)) [
    | inl cb ↦ rw (cb, ca, ab, cb)
    | inr cb ↦ rw (cb, ca, ba, ab, cb)
  ]
]

-- The order in which two buffers of different numbers are put in does not matter.
insert_sorted_comm :
    (a b : BufferState) (l : List BufferState)
    → a.number ≢ b.number
    → insert_sorted a (insert_sorted b l) ≡ insert_sorted b (insert_sorted a l)
insert_sorted_comm a b l apart = elim (Bool-cases (lt_int a.number b.number)) [
  | inl ab ↦ insert_sorted_lt a b l ab (lt_int-asym a.number b.number ab)
  | inr ab ↦ sym (insert_sorted_lt b a l (lt_int-total a.number b.number apart ab) ab)
]

-- A map without a key.
remove : Bytes → Entries → Entries
remove k [] = []
remove k ((j, w) ∷ m) = if str_eq j k then m else (j, w) ∷ remove k m

abbrev Numbered : Entries → Type 0
Numbered = Distinct (λ (b : BufferState). b.number)

abbrev pub values : Entries → List BufferState
values = map (λ (e : Bytes × BufferState). e.1)

lookup-remove :
    (k j : Bytes) (m : Entries)
    → IsMap m
    → lookup j (remove k m) ≡ (if str_eq k j then none else lookup j m)
unfolding lookup remove
lookup-remove k j [] u = elim (Bool-cases (str_eq k j)) [ inl e ↦ rw e | inr e ↦ rw e ]
lookup-remove k j ((i, w) ∷ m) (free, u) =
    let rest = lookup-remove k j m u in
    ground (arith, str_eq_iff k j, str_eq_iff i k, str_eq_iff i j, rest)

IsMap-remove : (k : Bytes) (m : Entries) → IsMap m → IsMap (remove k m)
unfolding remove
IsMap-remove k [] u = tt
IsMap-remove k ((j, w) ∷ m) (free, u) = elim (Bool-cases (str_eq j k)) [
  | inl same ↦ rw same u
  | inr other ↦
      let gone : lookup j (remove k m) ≡ none = lookup-remove k j m u ∙ missing (str_eq k j) free in
      rw other (gone, IsMap-remove k m u)
]
  where
    missing : (c : Bool) → lookup j m ≡ none → (if c then none else lookup j m) ≡ none
    missing true f = refl
    missing false f = f

sort_buffers-remove :
    (k : Bytes) (b : BufferState) (m : Entries)
    → IsMap m
    → Numbered m
    → lookup k m ≡ some b
    → sort_buffers (values m) ≡ insert_sorted b (sort_buffers (values (remove k m)))
unfolding lookup remove sort_buffers
sort_buffers-remove k b [] u d e = cc
sort_buffers-remove k b ((j, w) ∷ m) (free, u) d e = elim (Bool-cases (str_eq j k)) [
  | inl same ↦ let e' : some w ≡ some b = rw same at e in let p : w ≡ b = cc in rw (same, p)
  | inr other ↦
      let found : lookup k m ≡ some b = rw other at e in
      let head : lookup j ((j, w) ∷ m) ≡ some w = rw (str_eq_refl j) in
      let apart : w.number ≢ b.number =
        λ q. let p = (str_eq_iff j k).1 (d j k w b head e q) in cc in
      let rest =
        sort_buffers-remove k b m u
          (λ i l v x f g. d i l v x (tail_lookup j i w v m free f) (tail_lookup j l w x m free g))
          found in
      rw other (
        ap (insert_sorted w) rest
        ∙ insert_sorted_comm w b (sort_buffers (values (remove k m))) apart)
]

Numbered-remove : (k : Bytes) (m : Entries) → IsMap m → Numbered m → Numbered (remove k m)
Numbered-remove k m u d i j v w f g q = d i j v w (kept i v f) (kept j w g) q
  where
    kept : (i : Bytes) (v : BufferState) → lookup i (remove k m) ≡ some v → lookup i m ≡ some v
    kept i v f = elim (Bool-cases (str_eq k i)) [
      | inl same ↦ let r : none ≡ some v = sym (lookup-remove k i m u ∙ rw same refl) ∙ f in cc
      | inr other ↦ sym (lookup-remove k i m u ∙ rw other refl) ∙ f
    ]

-- The same map in two orders gives one sorted list.
pub sort_buffers_any_order :
    (m es : Entries)
    → IsMap m
    → IsMap es
    → Numbered es
    → ((k : Bytes) → lookup k es ≡ lookup k m)
    → sort_buffers (values es) ≡ sort_buffers (values m)
unfolding sort_buffers lookup
sort_buffers_any_order [] [] um ue d same = refl
sort_buffers_any_order [] ((k, b) ∷ es) um ue d same =
    let head : some b ≡ none = sym (rw (str_eq_refl k)) ∙ same k in cc
sort_buffers_any_order ((k, b) ∷ m) es (free, um) ue d same =
    let found : lookup k es ≡ some b = same k ∙ rw (str_eq_refl k) in
    sort_buffers-remove k b es ue d found
    ∙ ap (insert_sorted b) (
        sort_buffers_any_order m (remove k es) um (IsMap-remove k es ue) (Numbered-remove k es ue d)
          rest)
  where
    rest : (j : Bytes) → lookup j (remove k es) ≡ lookup j m
    rest j = elim (Bool-cases (str_eq k j)) [
      | inl e ↦
          let p : k ≡ j = (str_eq_iff k j).0 e in
          lookup-remove k j es ue ∙ rw e (sym free ∙ ap (λ i. lookup i m) p)
      | inr e ↦ lookup-remove k j es ue ∙ rw e (same j ∙ rw e refl)
    ]
