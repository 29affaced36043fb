-- ===== src/System/Overtaking.antt =====
-- internal/erssi/client.go and internal/bridge/bridge.go: each message is handled in a goroutine of its own,
-- so that a later one can overtake an earlier one.
use erssi_lith_bridge.Base.{
  ◌≡◌, refl, ap, ◌∙◌, Bool, true, false, ℕ, List, [], ◌∷◌, ◌++◌, append-nil, append_assoc, map,
  Option, none, ok,
}
use erssi_lith_bridge.Base.Text.{codes}
use erssi_lith_bridge.Proto.Create.{create_lines_hdata}
use erssi_lith_bridge.Erssi.Types.{WebMessage, channel_join, state_dump}
use erssi_lith_bridge.Erssi.Client.{Frame, read_frame}
use erssi_lith_bridge.Translator.State.{Host}
use erssi_lith_bridge.Translator.Buffers.{erssi_message_to_line}
use erssi_lith_bridge.Translator.History.{new_line}
use erssi_lith_bridge.Bridge.State.{Bridge, Effect, broadcast}
use erssi_lith_bridge.Bridge.Handlers.{
  system_message, request_nicklist, broadcast_line, start_state_dump, handle_channel_join, dispatch,
  handle_erssi_message, joins, makes_server, left, go_on,
}
use erssi_lith_bridge.Bridge.Events.{Event, from_erssi, resumes, handle, rest_of, run}
use erssi_lith_bridge.Bridge.Shown.{line_message}
use erssi_lith_bridge.System.State.{System, run_task}
use erssi_lith_bridge.System.Steps.{World, receives, runs}
use erssi_lith_bridge.System.Later.{Leads, stays, goes}

abbrev Task : Type 0
Task = Option ℕ × Event

-- Both messages are read, one behind the other, and nothing else.
abbrev pub read_both : {W : Type 0} → WebMessage → WebMessage → System W → System W
read_both m n s = record s {
  tasks = (s.tasks ++ ((none, from_erssi m) ∷ [])) ++ ((none, from_erssi n) ∷ []);
}

-- A join that was read to be no part of a dump is shown, and keeps the flag that there is now.
join_shown :
    (h : Host) (join : WebMessage) (b : Bridge) (dumping : Bool)
    → dumping ≡ false
    → let text = join.nick ++ (codes " has joined " ++ join.target) in
      let line = new_line h (system_message join text) b.translator in
      ((handle_channel_join h dumping join b).0.in_state_dump ≡ b.in_state_dump)
      × ((handle_channel_join h dumping join b).1
          ≡ broadcast (line_message line) ∷ request_nicklist join.server_tag join.target ∷ [])
unfolding handle_channel_join broadcast_line erssi_message_to_line new_line create_lines_hdata
join_shown h join b true off = absurd (cc)
join_shown h join b false off = (refl, refl)

module _ {E W : Type 0} (v : World E W) where
  read_both-Leads :
      (s : System W) (f g : Frame) (m n : WebMessage)
      → s.running ≡ true
      → read_frame v.cipher v.decode v.key f ≡ ok m
      → read_frame v.cipher v.decode v.key g ≡ ok n
      → Leads v s (read_both m n s)
  read_both-Leads s f g m n on first second =
      goes (goes stays on (receives f m first)) on (receives g n second)

  -- A task that waits is run.
  run-Leads :
      (s t : System W) (before after : List Task) (e : Event)
      → Leads v s t
      → t.running ≡ true
      → t.tasks ≡ before ++ ((none, e) ∷ after)
      → Leads v s (run_task v.host none e (before ++ after) t)
  run-Leads s t before after e way on waiting = goes way on (runs before after none e waiting)

  -- Of two messages that are read one behind the other, the second can be handled first: the program
  -- can come to a state in which the bridge is where it would be had they come in the other order.
  messages_overtake :
      (s : System W) (f g : Frame) (m n : WebMessage)
      → s.running ≡ true
      → read_frame v.cipher v.decode v.key f ≡ ok m
      → read_frame v.cipher v.decode v.key g ≡ ok n
      → Leads v s (read_both m n s)
        × ((t : System W) × Leads v (read_both m n s) t
            × (t.bridge ≡ (run v.host (from_erssi n ∷ from_erssi m ∷ []) s.bridge).0))
  unfolding run run_task
  messages_overtake s f g m n on first second =
      let s' = read_both m n s in
      let one = s.tasks ++ ((none, from_erssi m) ∷ []) in
      let u = run_task v.host none (from_erssi n) (one ++ []) s' in
      let rest = map (λ (e : Event). (none, e)) (rest_of (from_erssi n) s.bridge) in
      (
        read_both-Leads s f g m n on first second,
        (
          run_task v.host none (from_erssi m) (s.tasks ++ rest) u,
          run-Leads s' u s.tasks rest (from_erssi m)
              (run-Leads s' s' one [] (from_erssi n) stays on refl) on
              (ap (λ (ts : List Task). ts ++ rest) (append-nil one)
                ∙ append_assoc s.tasks ((none, from_erssi m) ∷ []) rest),
          refl,
        ),
      )

  -- Where no dump has begun, erssi sends the start of a dump and then a join that is a part of it. The
  -- program can come to show the join as a new one, after the dump has begun.
  pub dump_overtaken :
      (s : System W) (f g : Frame) (m n : WebMessage)
      → let dump = record m { type = state_dump } in
        let join = record n { type = channel_join } in
        s.running ≡ true
        → s.bridge.in_state_dump ≡ false
        → read_frame v.cipher v.decode v.key f ≡ ok dump
        → read_frame v.cipher v.decode v.key g ≡ ok join
        → let text = n.nick ++ (codes " has joined " ++ n.target) in
          let line = new_line v.host (system_message join text) s.bridge.translator in
          Leads v s (read_both dump join s)
          × ((t : System W) × Leads v (read_both dump join s) t
              × (t.bridge.in_state_dump ≡ true)
              × (t.sends
                  ≡ s.sends
                    ++ ((none, broadcast (line_message line))
                        ∷ (none, request_nicklist n.server_tag n.target)
                        ∷ [])))
  unfolding run_task handle handle_erssi_message dispatch rest_of left start_state_dump go_on
  dump_overtaken s f g m n on off first second =
      let dump = record m { type = state_dump } in
      let join = record n { type = channel_join } in
      let text = n.nick ++ (codes " has joined " ++ n.target) in
      let line = new_line v.host (system_message join text) s.bridge.translator in
      let s' = read_both dump join s in
      let one = s.tasks ++ ((none, from_erssi dump) ∷ []) in
      let read = resumes (joins s.bridge.in_state_dump join) in
      let late : Task = (none, read) in
      let made : Task = (none, resumes (makes_server m.server_tag)) in
      let s1 = run_task v.host none (from_erssi join) (one ++ []) s' in
      let s2 = run_task v.host none (from_erssi dump) (s.tasks ++ (late ∷ [])) s1 in
      (
        read_both-Leads s f g dump join on first second,
        (
          run_task v.host none read (s.tasks ++ (made ∷ [])) s2,
          run-Leads s' s2 s.tasks (made ∷ []) read
              (run-Leads s' s1 s.tasks (late ∷ []) (from_erssi dump)
                (run-Leads s' s' one [] (from_erssi join) stays on refl) on
                (ap (λ (ts : List Task). ts ++ (late ∷ [])) (append-nil one)
                  ∙ append_assoc s.tasks ((none, from_erssi dump) ∷ []) (late ∷ [])))
              on (append_assoc s.tasks (late ∷ []) (made ∷ [])),
          (join_shown v.host join s2.bridge s.bridge.in_state_dump off).0,
          ap (λ (out : List Effect). ((s.sends ++ []) ++ []) ++ map (λ (e : Effect). (none, e)) out)
                (join_shown v.host join s2.bridge s.bridge.in_state_dump off).1
              ∙ ap
                  (λ (fs : List (Option ℕ × Effect)).
                    fs
                    ++ ((none, broadcast (line_message line))
                        ∷ (none, request_nicklist n.server_tag n.target)
                        ∷ []))
                  (append-nil (s.sends ++ []) ∙ append-nil s.sends),
        ),
      )
