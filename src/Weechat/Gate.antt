-- ===== src/Weechat/Gate.antt =====
-- internal/weechat/server.go: which of a client's commands reach the bridge.
use erssi_lith_bridge.Base.{
  ℕ, ◌+◌, ◌≡◌, refl, ◌⊎◌, inl, inr, true, false, List, [], ◌∷◌, ◌++◌, Option, none, some, Bytes, ok,
  err, panic, arith,
}
use erssi_lith_bridge.Base.Text.{codes, str_eq_iff}
use erssi_lith_bridge.Weechat.Command.{Command, Line, malformed, blank, command, parse_line, scan}
use erssi_lith_bridge.Weechat.Session.{
  Client, new_client, Handled, send_message, handle_handshake, handle_init, forward,
  dispatch_command, handle_line, handle_command, then_lines, handle_lines, handle_client,
}

abbrev BeginsWithInit : List Command → Type 0
BeginsWithInit [] = ⊥
BeginsWithInit (c ∷ cs) = c.name ≡ codes "init"

-- Nothing has been handed on and the client is not authenticated, or `init` was handed on first and it
-- is.
abbrev pub IsGated : {E W : Type 0} → Handled E W → Type 0
IsGated (r, c, out) =
    (out ≡ []) × (c.authenticated ≡ false) ⊎ BeginsWithInit out × (c.authenticated ≡ true)

module _ {E W : Type 0} (write : Bytes → W → Option E × W) where
  handshake-keeps :
      (random : Option Bytes) (id : Bytes) (c : Client W)
      → ((handle_handshake write random id c).1.authenticated ≡ c.authenticated)
        × ((handle_handshake write random id c).2 ≡ [])
  unfolding handle_handshake send_message
  handshake-keeps none id c = (refl, refl)
  handshake-keeps (some bytes) id c = (refl, refl)

  dispatch-IsGated :
      (random : Option Bytes) (cmd : Command) (c : Client W)
      → c.authenticated ≡ false
      → IsGated (dispatch_command write random cmd c)
  unfolding dispatch_command handle_init forward
  dispatch-IsGated random cmd c off =
      let keeps = handshake-keeps random cmd.id c in
      let is_init = str_eq_iff cmd.name (codes "init") in ground arith

  dispatch-stays :
      (random : Option Bytes) (cmd : Command) (c : Client W)
      → c.authenticated ≡ true
      → (dispatch_command write random cmd c).1.authenticated ≡ true
  unfolding dispatch_command handle_init forward
  dispatch-stays random cmd c on = let keeps = handshake-keeps random cmd.id c in ground arith

  pub line-IsGated :
      (random : Option Bytes) (l : Line) (c : Client W)
      → c.authenticated ≡ false
      → IsGated (handle_line write random l c)
  unfolding handle_line
  line-IsGated random malformed c off = inl (refl, off)
  line-IsGated random blank c off = inl (refl, off)
  line-IsGated random (command cmd) c off = dispatch-IsGated random cmd c off

  pub line-stays :
      (random : Option Bytes) (l : Line) (c : Client W)
      → c.authenticated ≡ true
      → (handle_line write random l c).1.authenticated ≡ true
  unfolding handle_line
  line-stays random malformed c on = on
  line-stays random blank c on = on
  line-stays random (command cmd) c on = dispatch-stays random cmd c on

then_lines-stays :
    {E W : Type 0} (a : Handled E W) (rest : Client W → Handled E W)
    → a.1.authenticated ≡ true
    → ((c : Client W) → c.authenticated ≡ true → (rest c).1.authenticated ≡ true)
    → (then_lines a rest).1.authenticated ≡ true
unfolding then_lines
then_lines-stays (ok _, c, out) rest on keep = keep c on
then_lines-stays (err e, c, out) rest on keep = on
then_lines-stays (panic, c, out) rest on keep = on

begins_append : (xs ys : List Command) → BeginsWithInit xs → BeginsWithInit (xs ++ ys)
begins_append [] ys h = absurd h
begins_append (x ∷ xs) ys h = h

ok-IsGated :
    {E W : Type 0} (c : Client W) (out : List Command) (rest : Client W → Handled E W)
    → (out ≡ []) × (c.authenticated ≡ false) ⊎ BeginsWithInit out × (c.authenticated ≡ true)
    → ((c : Client W) → c.authenticated ≡ false → IsGated (rest c))
    → ((c : Client W) → c.authenticated ≡ true → (rest c).1.authenticated ≡ true)
    → IsGated {E = E} ((rest c).0, (rest c).1, out ++ (rest c).2)
ok-IsGated c out rest (inl (e, off)) gate keep = rw e (gate c off)
ok-IsGated c out rest (inr (b, on)) gate keep = inr (begins_append out (rest c).2 b, keep c on)

then_lines-IsGated :
    {E W : Type 0} (a : Handled E W) (rest : Client W → Handled E W)
    → IsGated a
    → ((c : Client W) → c.authenticated ≡ false → IsGated (rest c))
    → ((c : Client W) → c.authenticated ≡ true → (rest c).1.authenticated ≡ true)
    → IsGated (then_lines a rest)
unfolding then_lines
then_lines-IsGated (ok _, c, out) rest g gate keep = ok-IsGated c out rest g gate keep
then_lines-IsGated (err e, c, out) rest g gate keep = g
then_lines-IsGated (panic, c, out) rest g gate keep = g

module _ {E W : Type 0} (write : Bytes → W → Option E × W) (random : ℕ → Option Bytes) where
  lines-stays :
      (n : ℕ) (ls : List Bytes) (c : Client W)
      → c.authenticated ≡ true
      → (handle_lines write random n ls c).1.authenticated ≡ true
  unfolding handle_lines handle_command
  lines-stays n [] c on = on
  lines-stays n (l ∷ ls) c on =
      then_lines-stays (handle_line write (random n) (parse_line l) c) _
        (line-stays write (random n) (parse_line l) c on) (λ c' on'. lines-stays (n + 1) ls c' on')

  lines-IsGated :
      (n : ℕ) (ls : List Bytes) (c : Client W)
      → c.authenticated ≡ false
      → IsGated (handle_lines write random n ls c)
  unfolding handle_lines handle_command
  lines-IsGated n [] c off = inl (refl, off)
  lines-IsGated n (l ∷ ls) c off =
      then_lines-IsGated (handle_line write (random n) (parse_line l) c) _
        (line-IsGated write (random n) (parse_line l) c off)
        (λ c' off'. lines-IsGated (n + 1) ls c' off') (λ c' on. lines-stays (n + 1) ls c' on)

  -- Whatever bytes a client sends, either nothing of it is handed on to the bridge and the client
  -- ends unauthenticated, or an `init` command is the first that is handed on and it ends
  -- authenticated.
  pub handle_client-IsGated :
      (input : Bytes) (w : W) → IsGated (handle_client write random input (new_client w))
  unfolding handle_client
  handle_client-IsGated input w = lines-IsGated 0 (scan input).0 (new_client w) refl
