-- ===== src/System/Later.antt =====
-- The states to which a state of the program leads, and what a client has typed by then.
use erssi_lith_bridge.Base.{
  ◌≡◌, ◌≢◌, refl, sym, ap, ◌∙◌, true, ℕ, List, [], ◌∷◌, ◌++◌, map, Option, some, Bytes, ok,
}
use erssi_lith_bridge.Base.Text.{codes, Lacks, to_lower, join, fields}
use erssi_lith_bridge.Base.Assoc.{lookup}
use erssi_lith_bridge.Erssi.Types.{message, zero_message}
use erssi_lith_bridge.Translator.State.{BufferState, Host, buffer_key}
use erssi_lith_bridge.Translator.Identity.{IsTicking}
use erssi_lith_bridge.Bridge.State.{Bridge, Effect, to_erssi}
use erssi_lith_bridge.Bridge.Handlers.{handle_weechat_command}
use erssi_lith_bridge.Bridge.Events.{Event, from_client, handle, run}
use erssi_lith_bridge.Weechat.Session.{handle_command}
use erssi_lith_bridge.Weechat.Server.{Peer}
use erssi_lith_bridge.System.State.{System, take_line, run_task, deliver}
use erssi_lith_bridge.System.Steps.{
  World, Step, accepts, reads_line, ends, receives, breaks, runs, sends, Reach,
}
use erssi_lith_bridge.System.Runs.{bridge-run_snoc, bridge-deliver, Reach-FollowsRun}
use erssi_lith_bridge.System.Typing.{typed_line, typed_command, typed_line_reaches_erssi}

-- The program gets from state s, by any steps, to a state.
pub data Leads {E W : Type 0} (v : World E W) (s : System W) : System W → Type 0 where
  stays : Leads v s s
  goes : {t u : System W} → Leads v s t → t.running ≡ true → Step v t u → Leads v s u

-- The events that the bridge handles on the way.
abbrev Handles : {W : Type 0} → Host → Bridge → System W → Type 0
Handles h b t = (es : List Event) × (t.bridge ≡ (run h es b).0)

module _ {E W : Type 0} (v : World E W) where
  Step-Handles :
      (b : Bridge) (s t : System W) → Step v s t → Handles v.host b s → Handles v.host b t
  unfolding take_line run_task
  Step-Handles b s t accepts r = r
  Step-Handles b s t (reads_line k p line random found there) r = r
  Step-Handles b s t (ends k p found there) r = r
  Step-Handles b s t (receives f m read) r = r
  Step-Handles b s t (breaks f bad) r = r
  Step-Handles b s t (runs before after o e waiting) (es, same) =
      (es ++ (e ∷ []), ap (λ c. (handle v.host e c).0) same ∙ sym (bridge-run_snoc v.host es e b))
  Step-Handles b s t (sends before after o f waiting) (es, same) =
      (es, bridge-deliver v o f (record s { sends = before ++ after }) ∙ same)

  Leads-Handles : (s t : System W) → Leads v s t → Handles v.host s.bridge t
  unfolding run
  Leads-Handles s t stays = ([], refl)
  Leads-Handles s t (goes {t = r} before running step) =
      Step-Handles s.bridge r t step (Leads-Handles s r before)

  pub typed_line_taken :
      (s : System W) (tag target text w : Bytes) (ws : List Bytes) (b : BufferState)
      (random : Option Bytes) (p : Peer W)
      → IsTicking v.host
      → p.client.authenticated ≡ true
      → Reach v s
      → lookup (buffer_key v.host tag target) s.bridge.translator.buffers ≡ some b
      → Lacks b'.' tag
      → tag ≢ []
      → fields text ≡ w ∷ ws
      → handle_command v.write random (typed_line b.pointer text) p.client
        ≡ (ok tt, p.client, typed_command b.pointer text ∷ [])
  typed_line_taken s tag target text w ws b random p ticking on reach found lacks nonempty spoken =
      let f = Reach-FollowsRun v s reach in
      (typed_line_reaches_erssi v.write random p.client v.host f.events [] tag target text w ws b on
        ticking
        (ap (λ (c : Bridge). lookup (buffer_key v.host tag target) c.translator.buffers)
            (sym f.bridge)
          ∙ found)
        lacks nonempty spoken).0

  pub typed_line_run :
      (s t : System W) (tag target text w : Bytes) (ws : List Bytes) (b : BufferState)
      (random : Option Bytes) (p : Peer W)
      → IsTicking v.host
      → p.client.authenticated ≡ true
      → Reach v s
      → lookup (buffer_key v.host tag target) s.bridge.translator.buffers ≡ some b
      → Leads v s t
      → Lacks b'.' tag
      → tag ≢ []
      → fields text ≡ w ∷ ws
      → (handle v.host (from_client [] (codes "input") (b.pointer ∷ fields text)) t.bridge).1
        ≡ to_erssi (record (zero_message message) {
          server_tag = tag;
          target = to_lower v.host.unicode_lower target;
          text = join (fields text) (codes " ");
        })
          ∷ []
  unfolding handle
  typed_line_run s t tag target text w ws b random p ticking on reach found way lacks nonempty
        spoken =
      let r = Reach-FollowsRun v s reach in
      let (es, same) = Leads-Handles s t way in
      ap (λ (c : Bridge). (handle_weechat_command [] (codes "input") (b.pointer ∷ fields text) c).1)
        (same ∙ ap (λ (c : Bridge). (run v.host es c).0) r.bridge)
      ∙ (typed_line_reaches_erssi v.write random p.client v.host r.events es tag target text w ws b
          on ticking
          (ap (λ (c : Bridge). lookup (buffer_key v.host tag target) c.translator.buffers)
              (sym r.bridge)
            ∙ found)
          lacks nonempty spoken).1

  -- A client that is authenticated types a text that is not blank into a buffer of a server and a
  -- target, by the pointer that the buffer had in a state that the program can reach. Its line becomes
  -- one task. Run in any state to which that one leads, the task makes one send; and when this goes
  -- out, erssi is sent one message, for the server and the target in lower case. The words of the text
  -- are joined by single blanks: white space at its ends is lost, and so is more than a blank between
  -- two words. The server's tag must be without a dot and not empty, and no two readings of the clock
  -- are equal.
  pub typed_line_sent :
      (s r t u : System W) (k : ℕ) (p : Peer W) (random : Option Bytes) (tag target text w : Bytes)
      (ws : List Bytes) (b : BufferState) (others : List (Option ℕ × Event))
      → IsTicking v.host
      → p.client.authenticated ≡ true
      → Reach v s
      → lookup (buffer_key v.host tag target) s.bridge.translator.buffers ≡ some b
      → Leads v s t
      → Lacks b'.' tag
      → tag ≢ []
      → fields text ≡ w ∷ ws
      → let line = typed_line b.pointer text in
        let task = from_client [] (codes "input") (b.pointer ∷ fields text) in
        let msg = record (zero_message message) {
          server_tag = tag;
          target = to_lower v.host.unicode_lower target;
          text = join (fields text) (codes " ");
        } in
        ((take_line v.close k (handle_command v.write random line p.client) r).tasks
          ≡ r.tasks ++ ((some k, task) ∷ []))
        × ((run_task v.host (some k) task others t).sends
            ≡ t.sends ++ ((some k, to_erssi msg) ∷ []))
        × ((deliver v.write (some k) (to_erssi msg) u).sent ≡ u.sent ++ (msg ∷ []))
  unfolding take_line run_task deliver
  typed_line_sent s r t u k p random tag target text w ws b others ticking on reach found way lacks
        nonempty spoken =
      let parsed =
        typed_line_taken s tag target text w ws b random p ticking on reach found lacks nonempty
          spoken in
      (
        rw (parsed) refl,
        ap (λ effects. t.sends ++ map (λ (f : Effect). (some k, f)) effects)
            (typed_line_run s t tag target text w ws b random p ticking on reach found way lacks
              nonempty spoken),
        refl,
      )
