-- ===== src/Weechat/Requests.antt =====
-- internal/weechat/server.go: a client that follows the protocol has all its requests handed on.
use erssi_lith_bridge.Base.{
  ℕ, ◌+◌, ◌≡◌, refl, sym, ap, ◌∙◌, Bool, true, List, [], ◌∷◌, map, Option, Bytes, ok, All,
}
use erssi_lith_bridge.Base.Text.{codes, str_eq}
use erssi_lith_bridge.Weechat.Command.{Command}
use erssi_lith_bridge.Weechat.Session.{
  Client, new_client, handle_init, forward, is_forwarded, dispatch_command, handle_line,
  handle_command, then_lines, handle_lines, handle_client,
}
use erssi_lith_bridge.Weechat.Parsing.{
  print_command, IsCommand, parse_line-print_command, unlines, IsLine, scan-unlines,
}

-- The requests that are handed on to the bridge.
pub data Verb : Type 0 where
  init hdata input sync desync nicklist : Verb

abbrev pub verb_name : Verb → Bytes
verb_name init = codes "init"
verb_name hdata = codes "hdata"
verb_name input = codes "input"
verb_name sync = codes "sync"
verb_name desync = codes "desync"
verb_name nicklist = codes "nicklist"

pub record Request : Type 0 where
  pub verb : Verb
  pub id : Bytes
  pub args : List Bytes

abbrev pub command_of : Request → Command
command_of r = record { id = r.id; name = verb_name r.verb; args = r.args }

abbrev pub line_of : Request → Bytes
line_of r = print_command (command_of r)

-- A request that can be written as one line.
pub record IsRequest (r : Request) : Type 0 where
  pub printable : IsCommand (command_of r)
  pub one_line : IsLine (line_of r)

module _ {E W : Type 0} (write : Bytes → W → Option E × W) where
  verb_handled :
      (v : Verb) (random : Option Bytes) (id : Bytes) (args : List Bytes) (c : Client W)
      → c.authenticated ≡ true
      → dispatch_command write random (record { id = id; name = verb_name v; args = args }) c
        ≡ (ok tt, c, record { id = id; name = verb_name v; args = args } ∷ [])
  unfolding dispatch_command handle_init forward is_forwarded str_eq
  verb_handled init random id args c on = λ i. (
    ok tt,
    record c { authenticated = sym on i },
    record { id = id; name = codes "init"; args = args } ∷ [],
  )
  verb_handled hdata random id args c on = rw on
  verb_handled input random id args c on = rw on
  verb_handled sync random id args c on = rw on
  verb_handled desync random id args c on = rw on
  verb_handled nicklist random id args c on = rw on

  pub request_handled :
      (r : Request) (random : Option Bytes) (c : Client W)
      → IsRequest r
      → c.authenticated ≡ true
      → handle_command write random (line_of r) c ≡ (ok tt, c, command_of r ∷ [])
  unfolding handle_command handle_line
  request_handled r random c h on =
      ap (λ l. handle_line write random l c) (parse_line-print_command (command_of r) h.printable)
      ∙ verb_handled r.verb random r.id r.args c on

  init_handled :
      (id : Bytes) (args : List Bytes) (random : Option Bytes) (c : Client W)
      → IsRequest (record { verb = init; id = id; args = args })
      → handle_command write random (line_of (record { verb = init; id = id; args = args })) c ≡ (
        ok tt,
        record c { authenticated = true },
        command_of (record { verb = init; id = id; args = args }) ∷ [],
      )
  unfolding handle_command handle_line dispatch_command handle_init str_eq
  init_handled id args random c h =
      ap (λ l. handle_line write random l c) (parse_line-print_command _ h.printable)

module _ {E W : Type 0} (write : Bytes → W → Option E × W) (random : ℕ → Option Bytes) where
  requests_handled :
      (rs : List Request) (n : ℕ) (c : Client W)
      → All IsRequest rs
      → c.authenticated ≡ true
      → handle_lines write random n (map line_of rs) c ≡ (ok tt, c, map command_of rs)
  unfolding handle_lines then_lines
  requests_handled [] n c h on = refl
  requests_handled (r ∷ rs) n c h on =
      let first = request_handled write r (random n) c h.0 on in
      let rest = requests_handled rs (n + 1) c h.1 on in rw (first, then_lines, rest)

  -- A client that sends `init` and then any requests, each on a line of its own in the protocol's form,
  -- has exactly these requests handed on to the bridge, in order and with their identifiers and
  -- arguments; it is not cut off and nothing is written to it.
  pub handle_client-requests :
      (id : Bytes) (args : List Bytes) (rs : List Request) (w : W)
      → IsRequest (record { verb = init; id = id; args = args })
      → All IsRequest rs
      → handle_client write random
          (unlines (line_of (record { verb = init; id = id; args = args }) ∷ map line_of rs))
          (new_client w)
        ≡ (
          ok tt,
          record { conn = w; authenticated = true; nonce = [] },
          command_of (record { verb = init; id = id; args = args }) ∷ map command_of rs,
        )
  unfolding handle_client handle_lines then_lines
  handle_client-requests id args rs w h hs =
      let first = init_handled write id args (random 0) (new_client w) h in
      let rest =
        requests_handled rs (0 + 1) (record { conn = w; authenticated = true; nonce = [] }) hs
          refl in
      ap (λ (s : List Bytes × Bool). handle_lines write random 0 s.0 (new_client w))
        (scan-unlines (line_of (record { verb = init; id = id; args = args }) ∷ map line_of rs)
          (h.one_line, lines rs hs))
      ∙ rw (first, then_lines, rest)
    where
      lines : (rs : List Request) → All IsRequest rs → All IsLine (map line_of rs)
      lines [] hs = tt
      lines (r ∷ rs) hs = (hs.0.one_line, lines rs hs.1)
