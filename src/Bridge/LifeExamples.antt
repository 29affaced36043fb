-- ===== src/Bridge/LifeExamples.antt =====
-- internal/bridge: the theorems on the start and the stop of the bridge at concrete calls.
use erssi_lith_bridge.Base.{◌++◌, ℕ, none, Bytes, ◌≡◌, refl, true, List, [], ◌∷◌, some, arith}
use erssi_lith_bridge.Base.Text.{codes}
use erssi_lith_bridge.Erssi.Crypto.{Cipher}
use erssi_lith_bridge.Erssi.Client.{new_client, close, read_loop_ends, connect}
use erssi_lith_bridge.Weechat.Listening.{start_server, close_server, closed_listener}
use erssi_lith_bridge.Bridge.Lifecycle.{
  Life, Call, starts, stops, loop_ends, Closing, step, live, end_loop, stop,
}
use erssi_lith_bridge.Bridge.Calls.{new_life, after_stop, after_start, after_loop}
use erssi_lith_bridge.Bridge.Sessions.{listens, one_session_survives}
use erssi_lith_bridge.Bridge.Restarts.{restarted_panics, wait_ends}

-- A cipher of which only the key is used.
abbrev a_cipher : Cipher
a_cipher = record {
  pbkdf2_key = λ password salt iterations size. password ++ salt;
  new_cipher = λ key. true;
  new_gcm = λ key. true;
  gcm_open = λ key nonce text. some text;
}

-- Listeners are numbers and connections logs; the listener gives an error when it is closed.
abbrev a_closing : Closing (Unit {0}) ℕ Bytes
a_closing = record {
  write_close = λ w. (none, w);
  close_conn = λ w. none;
  close_listener = λ l. some tt;
}

abbrev made : Life ℕ Bytes
made = new_life (new_client a_cipher (codes "ws://h") (codes "pw"))

-- the port is taken at first
abbrev one_session : List (Call ℕ Bytes)
one_session = starts none (some []) ∷ starts (some 1) (some []) ∷ loop_ends ∷ stops ∷ []

one_session_survives_example : (t : Life ℕ Bytes) × (live a_closing one_session made ≡ some t)
unfolding listens
one_session_survives_example =
    one_session_survives a_closing a_cipher (codes "ws://h") (codes "pw") one_session (omega arith)

abbrev up : Life ℕ Bytes
up = after_start 1 [] made

abbrev up_again : Life ℕ Bytes
up_again = after_start 2 [] (after_stop a_closing up)

restarted_panics_example : step a_closing stops up_again ≡ none
unfolding live step stop close_server closed_listener erssi_lith_bridge.Bridge.Lifecycle.start
    start_server connect
restarted_panics_example =
    restarted_panics a_closing (starts (some 2) (some []) ∷ []) up up_again refl refl refl

abbrev down : Life ℕ Bytes
down = after_stop a_closing (after_loop 0 up)

wait_ends_example : down.client.done ≡ true
unfolding live step erssi_lith_bridge.Bridge.Lifecycle.start start_server connect read_loop_ends
    new_client stop close_server closed_listener close
wait_ends_example =
    wait_ends a_closing a_cipher (codes "ws://h") (codes "pw") one_session down refl refl refl
