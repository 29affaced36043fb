-- ===== src/Weechat/Command.antt =====
-- internal/weechat/server.go: the lines that bufio.Scanner makes of a client's bytes, and how
-- `handleCommand` takes a line apart.
use erssi_lith_bridge.Base.{
  ℕ, ◌^◌, Bool, true, false, List, [], ◌∷◌, Option, none, some, Bytes, length, drop, leb, ◌==◌,
  if◌then◌else◌,
}
use erssi_lith_bridge.Base.Text.{cut, split, fields, trim_space}
use erssi_lith_bridge.Erssi.Types.{is_empty}

-- The arguments of `onCommand`.
pub record Command : Type 0 where
  pub id : Bytes
  pub name : Bytes
  pub args : List Bytes

-- `strings.HasPrefix(line, "(")`: the message identifier, and what is left of the line. There is no
-- result where the parenthesis is not closed.
unfoldable pub strip_id : Bytes → Option (Bytes × Bytes)
strip_id [] = some ([], [])
strip_id (c ∷ s) =
    if c == b'('
    then elim (cut b')' (c ∷ s)) [
      | none ↦ none
      | some (before, after) ↦ some (drop 1 before, trim_space after)
    ]
    else some ([], c ∷ s)

-- What a line holds: an unclosed identifier, no command, or a command.
pub data Line : Type 0 where
  malformed blank : Line
  command : Command → Line

abbrev command_of : Bytes → List Bytes → Line
command_of id [] = blank
command_of id (name ∷ args) = command (record { id = id; name = name; args = args })

unfoldable pub parse_line : Bytes → Line
unfolding strip_id
parse_line line = elim (strip_id line) [
  | none ↦ malformed
  | some (id, rest) ↦ command_of id (fields rest)
]

-- A carriage return at the end of a line is dropped.
unfoldable pub drop_cr : Bytes → Bytes
drop_cr [] = []
drop_cr (c ∷ []) = if c == 13 then [] else c ∷ []
drop_cr (c ∷ d ∷ s) = c ∷ drop_cr (d ∷ s)

-- The size of the scanner's buffer, in which a line and its newline must fit.
abbrev pub max_token_size : ℕ
max_token_size = 2 ^ 16

-- The pieces between newlines become lines, up to the first that does not fit. What follows the last
-- newline is a line if it is not empty. The flag is the scanner's error.
unfoldable pub scan_pieces : List Bytes → List Bytes × Bool
unfolding drop_cr
scan_pieces [] = ([], false)
scan_pieces (p ∷ []) =
    if leb max_token_size (length p)
    then ([], true)
    else if is_empty p
    then ([], false)
    else (drop_cr p ∷ [], false)
scan_pieces (p ∷ q ∷ ps) =
    let rest = scan_pieces (q ∷ ps) in
    if leb max_token_size (length p) then ([], true) else (drop_cr p ∷ rest.0, rest.1)

unfoldable pub scan : Bytes → List Bytes × Bool
unfolding scan_pieces
scan input = scan_pieces (split b'\n' input)
