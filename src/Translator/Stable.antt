-- ===== src/Translator/Stable.antt =====
-- What lasts of the buffers: no key is doubled, and a buffer keeps its key and its identity.
use mathlib.Core.Path.{subst}
use erssi_lith_bridge.Base.{
  ◌≡◌, refl, sym, ap, ◌∙◌, true, false, List, [], ◌∷◌, some, Bytes, Bool-cases, inl, inr,
}
use erssi_lith_bridge.Base.Text.{str_eq, str_eq_iff}
use erssi_lith_bridge.Base.Assoc.{lookup, insert, lookup-insert}
use erssi_lith_bridge.Translator.State.{BufferState, Translator, Host}
use erssi_lith_bridge.Translator.Changes.{SameBuffer, Change, tick, add, edit, Changes, here, next}
use erssi_lith_bridge.Translator.Lookup.{IsMap, IsRange}

IsMap-insert :
    (k : Bytes) (b : BufferState) (m : List (Bytes × BufferState)) → IsMap m → IsMap (insert k b m)
unfolding insert
IsMap-insert k b [] u = (unfold lookup in refl, tt)
IsMap-insert k b ((j, w) ∷ m) (free, u) = elim (Bool-cases (str_eq j k)) [
  | inl same ↦ rw same (free, u)
  | inr other ↦
      let apart : str_eq k j ≡ false = elim (Bool-cases (str_eq k j)) [
        | inr e ↦ e
        | inl e ↦ let p : str_eq j k ≡ true = (str_eq_iff j k).1 (sym ((str_eq_iff k j).0 e)) in cc
      ] in
      rw other ((lookup-insert k j b m ∙ rw apart free), IsMap-insert k b m u)
]

Change-IsMap : {h : Host} (t u : Translator) → Change h t u → IsMap t.buffers → IsMap u.buffers
Change-IsMap t u (tick e) m = subst (λ (v : Translator). IsMap v.buffers) (sym e) m
Change-IsMap t u (add key b free ep en e) m =
    subst (λ (v : Translator). IsMap v.buffers) (sym e) (IsMap-insert key b t.buffers m)
Change-IsMap t u (edit key b c found same e) m =
    subst (λ (v : Translator). IsMap v.buffers) (sym e) (IsMap-insert key c t.buffers m)

pub Changes-IsMap :
    {h : Host} {t u : Translator} → Changes h t u → IsMap t.buffers → IsMap u.buffers
Changes-IsMap here m = m
Changes-IsMap (next c d) m = Change-IsMap _ _ d (Changes-IsMap c m)

-- The order in which the entries were added is one in which the map may be ranged over.
pub own-IsRange : (t : Translator) → IsMap t.buffers → IsRange t.buffers t.buffers
own-IsRange t m = record { is_map = m; same = λ key. refl }

SameBuffer-refl : (b : BufferState) → SameBuffer b b
SameBuffer-refl b = record {
  pointer = refl;
  number = refl;
  server_tag = refl;
  name = refl;
  short_name = refl;
  is_server = refl;
}

SameBuffer-trans : {a b c : BufferState} → SameBuffer a b → SameBuffer b c → SameBuffer a c
SameBuffer-trans p q = record {
  pointer = p.pointer ∙ q.pointer;
  number = p.number ∙ q.number;
  server_tag = p.server_tag ∙ q.server_tag;
  name = p.name ∙ q.name;
  short_name = p.short_name ∙ q.short_name;
  is_server = p.is_server ∙ q.is_server;
}

-- The buffer under a key, or one of its identity, is under the key later.
abbrev pub Lasts : Bytes → BufferState → Translator → Type 0
Lasts key b u = (c : BufferState) × (lookup key u.buffers ≡ some c) × SameBuffer b c

lasts_insert :
    (key k : Bytes) (b old new : BufferState) (t : Translator)
    → lookup key t.buffers ≡ some b
    → lookup k t.buffers ≡ some old
    → SameBuffer old new
    → (c : BufferState) × (lookup key (insert k new t.buffers) ≡ some c) × SameBuffer b c
lasts_insert key k b old new t e f same = elim (Bool-cases (str_eq k key)) [
  | inl hit ↦
      let p : k ≡ key = (str_eq_iff k key).0 hit in
      let q : some old ≡ some b = sym f ∙ ap (λ i. lookup i t.buffers) p ∙ e in
      let r : old ≡ b = cc in
      (new, lookup-insert k key new t.buffers ∙ rw hit refl, subst (λ x. SameBuffer x new) r same)
  | inr miss ↦ (b, lookup-insert k key new t.buffers ∙ rw miss e, SameBuffer-refl b)
]

Change-Lasts :
    {h : Host} (t u : Translator) (key : Bytes) (b : BufferState)
    → Change h t u
    → lookup key t.buffers ≡ some b
    → Lasts key b u
Change-Lasts t u key b (tick e) f = subst (Lasts key b) (sym e) (b, f, SameBuffer-refl b)
Change-Lasts t u key b (add k n free ep en e) f =
    subst (Lasts key b) (sym e) (elim (Bool-cases (str_eq k key)) [
      | inl hit ↦
          let p : k ≡ key = (str_eq_iff k key).0 hit in
          let q : lookup k t.buffers ≡ some b = ap (λ i. lookup i t.buffers) p ∙ f in cc
      | inr miss ↦ (b, lookup-insert k key n t.buffers ∙ rw miss f, SameBuffer-refl b)
    ])
Change-Lasts t u key b (edit k old new found same e) f =
    subst (Lasts key b) (sym e) (lasts_insert key k b old new t f found same)

pub Changes-Lasts :
    {h : Host} {t u : Translator} (key : Bytes) (b : BufferState)
    → Changes h t u
    → lookup key t.buffers ≡ some b
    → Lasts key b u
Changes-Lasts key b here f = (b, f, SameBuffer-refl b)
Changes-Lasts key b (next c d) f =
    let (b', f', same) = Changes-Lasts key b c f in
    let (b'', f'', same') = Change-Lasts _ _ key b' d f' in (b'', f'', SameBuffer-trans same same')
