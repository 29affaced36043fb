-- ===== src/Weechat/Listening.antt =====
-- internal/weechat/server.go: the start and the close of the server.
use erssi_lith_bridge.Base.{
  Bool, true, false, not, Option, none, some, Result, ok, err, panic, if◌then◌else◌,
}

-- `listener` is the one that `Start` opened last, and `done` is whether the channel of that name is
-- closed.
pub record Server (L : Type 0) : Type 0 where
  pub listener : Option L
  pub done : Bool

abbrev pub new_server : {L : Type 0} → Server L
new_server = record { listener = none; done = false }

pub data ServerError : Type 0 where
  failed_to_listen : ServerError

-- `Start`, given what net.Listen gives: a listener, or none where it fails.
unfoldable pub start_server :
    {L : Type 0} → Option L → Server L → Result ServerError (Unit {0}) × Server L
start_server none s = (err failed_to_listen, s)
start_server (some l) s = (ok tt, record s { listener = some l })

unfoldable pub closed_listener : {E L : Type 0} → (L → Option E) → Option L → Result E (Unit {0})
closed_listener close_listener none = ok tt
closed_listener close_listener (some l) = elim (close_listener l) [ none ↦ ok tt | some e ↦ err e ]

-- `Close`: closing the channel a second time panics.
unfoldable pub close_server :
    {E L : Type 0} → (L → Option E) → Server L → Result E (Unit {0}) × Server L
close_server close_listener s =
    if s.done
    then (panic, s)
    else (closed_listener close_listener s.listener, record s { done = true })

-- Whether `acceptLoop` goes on after an error of Accept.
unfoldable pub keeps_accepting : {L : Type 0} → Server L → Bool
keeps_accepting s = not s.done
