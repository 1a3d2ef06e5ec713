-- ===== src/Helper/Exit.antt =====
-- The instances of main.c over a run, and when it ends.
use rdp_mcp.Prelude.{
  ℕ, ◌+◌, ◌≡◌, refl, ◌∙◌, ap, Bool, true, false, Option, none, some, List, [], ◌∷◌, if◌then◌else◌,
  if_intro, ◌>>=◌, length, get_elem?, arith, Option-cases, inl, inr,
}
use rdp_mcp.Json.{CJson, Heap}
use rdp_mcp.Protocol.{protocol_read_command}
use rdp_mcp.Command.{Command}
use rdp_mcp.Input.{InputApi}
use rdp_mcp.Session.{Answers}
use rdp_mcp.Session.Ownership.{instances, remove}
use rdp_mcp.Helper.{
  Helper, Worker, Phase, looping, leaving, returned, leave, put_phase, event_loop_thread,
  wait_thread, cleanup, Move, read, turn, signal, run_read, move, run,
}
use rdp_mcp.Helper.Instances.{Accounts, replaces_read, dispatch-Accounts, turn-Accounts, none_more}

instances-leave :
    (k : ℕ) (w : Worker) (s : Helper) → instances (leave k w s).actions ≡ instances s.actions
instances-leave k w s =
    if_intro (λ (t : Helper). instances (put_phase k w returned t).actions ≡ instances s.actions)
      s.g_running refl refl

instances-wait_thread :
    (t : Option ℕ) (s : Helper) → instances (wait_thread t s).actions ≡ instances s.actions
unfolding wait_thread
instances-wait_thread none s = refl
instances-wait_thread (some k) s = by_worker (get_elem? s.workers k)
  where
    Keeps : Helper → Type 0
    Keeps t = instances t.actions ≡ instances s.actions

    by_phase : (w : Worker) (p : Phase) → Keeps (elim p [ returned ↦ s | _ ↦ leave k w s ])
    by_phase w looping = instances-leave k w s
    by_phase w leaving = instances-leave k w s
    by_phase w returned = refl

    by_worker :
        (o : Option Worker)
        → Keeps (elim o [ none ↦ s | some w ↦ elim w.phase [ returned ↦ s | _ ↦ leave k w s ] ])
    by_worker none = refl
    by_worker (some w) = by_phase w w.phase

-- What `main` leaves when it returns.
abbrev pub LeavesBehind : ℕ → Helper → Type 0
LeavesBehind n s =
    (js : List ℕ) × (instances s.actions ≡ some js) × (length js ≡ n) × (s.g_instance ≡ none)

cleanup-LeavesBehind : (n : ℕ) (s : Helper) → Accounts n s → LeavesBehind n (cleanup s)
unfolding cleanup
cleanup-LeavesBehind n s (js, h, count) = elim (Option-cases s.g_instance) [
  | inl nil ↦ rw (nil) (js, (rw nil at h), count, refl)
  | inr (i, at) ↦
      let waited = instances-wait_thread s.g_event_thread (record s { g_connected = false }) in
      rw (at) (
        js,
        ap (λ o. o >>= remove i) ((rw at at waited) ∙ (rw at at h)) ∙ rw (remove-self i js) refl,
        count,
        refl,
      )
]
  where
    remove-self : (i : ℕ) (js : List ℕ) → remove i (i ∷ js) ≡ some js
    remove-self i js = ground arith

module _ {Item : Type 0} (json : CJson Item) (grants : ℕ → Bool) (api : InputApi) where
  -- The instances that a sequence of moves leaves behind: one for each connection that is begun while
  -- that of a connection that has ended is still there.
  abbrev pub replaced_by : Move → Helper → ℕ
  replaced_by (read a line) s =
      if s.g_running then replaces_read (protocol_read_command json grants line s.heap) s else 0
  replaced_by (turn events e k) s = 0
  replaced_by signal s = 0

  abbrev pub replaced : List Move → Helper → ℕ
  replaced [] s = 0
  replaced (m ∷ ms) s = replaced ms (move json grants api m s) + replaced_by m s

  read-Accounts :
      (a : Answers) (r : Option Command × Heap) (n : ℕ) (s : Helper)
      → Accounts n s
      → Accounts (replaces_read r s + n) (run_read json grants api a r s)
  read-Accounts a (none, heap) n s (js, h, count) = (js, h, omega (arith, count))
  read-Accounts a (some c, heap) n s h =
      let (js, logged, count) = h in
      dispatch-Accounts api a c n (record s { heap = heap }) (js, logged, count)

  move-Accounts :
      (m : Move) (n : ℕ) (s : Helper)
      → Accounts n s
      → Accounts (replaced_by m s + n) (move json grants api m s)
  unfolding move
  move-Accounts (read a line) n s h = by_flag s.g_running
    where
      result : Option Command × Heap
      result = protocol_read_command json grants line s.heap

      by_flag :
          (b : Bool)
          → Accounts
              ((if b then replaces_read result s else 0) + n)
              (if b then run_read json grants api a result s else s)
      by_flag true = read-Accounts a result n s h
      by_flag false = none_more n s h
  move-Accounts (turn events e k) n s h =
      none_more n (event_loop_thread events e k s) (turn-Accounts events e k n s h)
  move-Accounts signal n s (js, h, count) = (js, h, omega (arith, count))

  run-Accounts :
      (ms : List Move) (n : ℕ) (s : Helper)
      → Accounts n s
      → Accounts (replaced ms s + n) (run json grants api ms s)
  unfolding run
  run-Accounts [] n s h = none_more n s h
  run-Accounts (m ∷ ms) n s h =
      let (js, logged, count) =
        run-Accounts ms (replaced_by m s + n) (move json grants api m s) (move-Accounts m n s h) in
      (js, logged, omega (arith, count))

  -- Whatever lines are read, in whatever order with the turns of the threads and the signals: when `main`
  -- returns, the instances that were created and never freed are exactly as many as the connections that
  -- were begun over the instance of one that had ended, so none if there was no such connection; `main`
  -- frees the last one, and no instance is freed twice or connected after it was freed.
  pub main-LeavesBehind :
      (ms : List Move) (s : Helper)
      → instances s.actions ≡ some []
      → s.g_instance ≡ none
      → LeavesBehind (replaced ms s) (cleanup (run json grants api ms s))
  main-LeavesBehind ms s logged nil =
      let (js, left, count) = run-Accounts ms 0 s ([], rw (nil) logged, refl) in
      cleanup-LeavesBehind (replaced ms s) (run json grants api ms s)
        (js, left, omega (arith, count))
