-- ===== src/Weechat/Parsing.antt =====
-- internal/weechat/server.go: a command that a client writes in the relay protocol's form is taken
-- apart into its identifier, its name and its arguments.
use erssi_lith_bridge.Base.{
  ◌<◌, ◌≡◌, refl, sym, ap, ◌∙◌, false, List, [], ◌∷◌, ◌++◌, some, Bytes, length, All, arith, leb,
}
use erssi_lith_bridge.Base.Text.{
  codes, Lacks, cut-append, split, split-append, fields-join, trim_space, trim_space-join, join,
  IsWord,
}
use erssi_lith_bridge.Weechat.Command.{
  Command, command, strip_id, parse_line, drop_cr, max_token_size, scan_pieces, scan,
}

-- The protocol's form of a command, `(id) name arguments`.
unfoldable pub print_command : Command → Bytes
print_command c =
    codes "(" ++ (c.id ++ (codes ")" ++ (codes " " ++ join (c.name ∷ c.args) (codes " "))))

-- What a command must hold to be written in this form.
pub record IsCommand (c : Command) : Type 0 where
  pub id_lacks : Lacks b')' c.id
  pub words : All IsWord (c.name ∷ c.args)

strip_id-append :
    (id rest : Bytes)
    → Lacks b')' id
    → strip_id (b'(' ∷ (id ++ (b')' ∷ rest))) ≡ some (id, trim_space rest)
unfolding strip_id
strip_id-append id rest h =
    let whole = cut-append b')' (b'(' ∷ id) rest ((λ e. cc), h) in rw (strip_id, whole)

-- A command in the protocol's form is read as itself.
pub parse_line-print_command :
    (c : Command) → IsCommand c → parse_line (print_command c) ≡ command c
unfolding print_command parse_line
parse_line-print_command c h =
    let text = join (c.name ∷ c.args) (codes " ") in
    rw (
      parse_line,
      strip_id-append c.id (b' ' ∷ text) h.id_lacks,
      trim_space-join c.name c.args h.words,
      fields-join c.name c.args h.words,
    )

-- Lines with their newlines, as a client sends them.
unfoldable pub unlines : List Bytes → Bytes
unlines [] = []
unlines (l ∷ ls) = l ++ (b'\n' ∷ unlines ls)

-- A line that the scanner keeps as it is.
pub record IsLine (l : Bytes) : Type 0 where
  pub lacks : Lacks b'\n' l
  pub fits : length l < max_token_size
  pub no_cr : drop_cr l ≡ l

split-unlines :
    (l : Bytes) (ls : List Bytes)
    → Lacks b'\n' l
    → split b'\n' (unlines (l ∷ ls)) ≡ l ∷ split b'\n' (unlines ls)
unfolding unlines
split-unlines l ls h = split-append b'\n' l (unlines ls) h

split_nonempty :
    (ls : List Bytes)
    → All IsLine ls
    → (p : Bytes) × (ps : List Bytes) × (split b'\n' (unlines ls) ≡ p ∷ ps)
split_nonempty [] h = ([], [], unfold unlines split in refl)
split_nonempty (l ∷ ls) h = (l, split b'\n' (unlines ls), split-unlines l ls h.0.lacks)

scan_pieces_step :
    (l q : Bytes) (ps : List Bytes)
    → IsLine l
    → scan_pieces (l ∷ q ∷ ps) ≡ (l ∷ (scan_pieces (q ∷ ps)).0, (scan_pieces (q ∷ ps)).1)
unfolding scan_pieces
scan_pieces_step l q ps h =
    let fits : leb max_token_size (length l) ≡ false = let f = h.fits in ground arith in
    rw (fits, h.no_cr)

scan_unlines :
    (ls : List Bytes) → All IsLine ls → scan_pieces (split b'\n' (unlines ls)) ≡ (ls, false)
scan_unlines [] h = unfold unlines split scan_pieces in refl
scan_unlines (l ∷ ls) h =
    let (p, ps, e) = split_nonempty ls h.1 in
    let rest = scan_unlines ls h.1 in
    ap scan_pieces (split-unlines l ls h.0.lacks ∙ ap (λ r. l ∷ r) e)
    ∙ scan_pieces_step l p ps h.0
    ∙ ap (λ (r : List Bytes × _). (l ∷ r.0, r.1)) (ap scan_pieces (sym e) ∙ rest)

-- The scanner gives back the lines that a client sends.
pub scan-unlines : (ls : List Bytes) → All IsLine ls → scan (unlines ls) ≡ (ls, false)
unfolding scan
scan-unlines ls h = scan_unlines ls h
