-- ===== src/Session/Ownership.antt =====
-- The instances of library.c: who owns one, and what stop_connection leaves of it.
use rdp_mcp.Prelude.{
  ap, ℕ, ◌≡◌, ◌∙◌, Bool, true, false, not, ◌&&◌, Option, none, some, List, [], ◌∷◌, if◌then◌else◌,
  ◌==◌, arith, Bool-cases, Option-cases, inl, inr, ◌>>=◌,
}
use rdp_mcp.Disp
use rdp_mcp.Disp.{Size, disp_init, disp_set_initial_layout}
use rdp_mcp.Session.{
  Session, Thread, Action, created, connected_to, freed, started, checked, leave_loop, loop_turn,
  event_loop_thread, join_thread, free_instance, stop_connection, has_connection,
}

-- The instances that a log, newest first, has created and not freed; `none` for a log that frees or
-- uses another one.
abbrev pub remove : ℕ → List ℕ → Option (List ℕ)
remove i [] = none
remove i (j ∷ js) =
    let rest = remove i js in
    if i == j then some js else elim rest [ none ↦ none | some ks ↦ some (j ∷ ks) ]

abbrev used : ℕ → List ℕ → Option (List ℕ)
used i js = elim (remove i js) [ none ↦ none | some ks ↦ some js ]

abbrev pub instances : List Action → Option (List ℕ)
instances [] = some []
instances (created i ∷ rest) = elim (instances rest) [ none ↦ none | some js ↦ some (i ∷ js) ]
instances (freed i ∷ rest) = instances rest >>= remove i
instances (connected_to i ∷ rest) = instances rest >>= used i
instances (started i ∷ rest) = instances rest >>= used i
instances (checked i ∷ rest) = instances rest >>= used i
instances (a ∷ rest) = instances rest

abbrev pub kept : Option ℕ → List ℕ
kept none = []
kept (some i) = i ∷ []

-- A thread has the instance of the state as its argument.
abbrev Paired : Option ℕ → Option Thread → Type 0
Paired none none = Unit
Paired none (some t) = ⊥
Paired (some i) none = ⊥
Paired (some i) (some t) = i ≡ t.argument

abbrev pub Owned : Session → Type 0
Owned s = Paired s.g_instance s.g_event_thread × (instances s.actions ≡ some (kept s.g_instance))

-- The thread has not returned.
abbrev pub turning : Option Thread → Bool
turning none = false
turning (some t) = not t.done

-- A connection has a thread that has not returned, and the library is running.
abbrev Attended : Session → Type 0
Attended s = (s.g_connected && not (turning s.g_event_thread && s.g_running)) ≡ false

abbrev pub Coherent : Session → Type 0
Coherent s = Owned s × Attended s

pub remove-own : (i : ℕ) → remove i (i ∷ []) ≡ some []
remove-own i = ground arith

pub turn-Coherent :
    (events : Bool) (e : Disp.Env) (s : Session)
    → Coherent s
    → Coherent (event_loop_thread events e s)
unfolding event_loop_thread loop_turn leave_loop
turn-Coherent events e s h = ground arith

-- What stop_connection leaves.
abbrev pub Stopped : Session → Type 0
Stopped s =
    (instances s.actions ≡ some [])
    × (s.g_instance ≡ none)
    × (s.g_event_thread ≡ none)
    × (s.g_connected ≡ false)

-- A thread that is there has the instance of the state as its argument.
abbrev pub RunsOn : Option ℕ → Option Thread → Type 0
RunsOn o none = Unit
RunsOn o (some t) = o ≡ some t.argument

Paired→RunsOn : (o : Option ℕ) (t : Option Thread) → Paired o t → RunsOn o t
Paired→RunsOn none none h = tt
Paired→RunsOn none (some t) h = absurd h
Paired→RunsOn (some i) none h = absurd h
Paired→RunsOn (some i) (some t) h = ap some h

used-own : (i : ℕ) → used i (i ∷ []) ≡ some (i ∷ [])
used-own i = ground arith

join-Owned :
    (s : Session)
    → RunsOn s.g_instance s.g_event_thread
    → instances s.actions ≡ some (kept s.g_instance)
    → (instances (join_thread s).actions ≡ some (kept (join_thread s).g_instance))
      × ((join_thread s).g_event_thread ≡ none)
      × ((join_thread s).g_connected ≡ s.g_connected)
unfolding join_thread leave_loop
join-Owned s on h = elim (Option-cases s.g_event_thread) [
  | inl nil ↦ ground arith
  | inr (t, at) ↦ ground (arith, used-own t.argument)
]

free-Stopped :
    (s : Session)
    → instances s.actions ≡ some (kept s.g_instance)
    → s.g_event_thread ≡ none
    → s.g_connected ≡ false
    → Stopped (free_instance s)
unfolding free_instance
free-Stopped s logged joined off = elim (Option-cases s.g_instance) [
  | inl nil ↦ ground arith
  | inr (i, at) ↦ ground (arith, remove-own i)
]

pub stop-Stopped :
    (s : Session)
    → RunsOn s.g_instance s.g_event_thread
    → instances s.actions ≡ some (kept s.g_instance)
    → Stopped (stop_connection s)
unfolding stop_connection
stop-Stopped s on h =
    let (logged, joined, off) = join-Owned (record s { g_connected = false }) on h in
    free-Stopped (join_thread (record s { g_connected = false })) logged joined off

pub stop-Owned : (s : Session) → Owned s → Stopped (stop_connection s)
stop-Owned s h = stop-Stopped s (Paired→RunsOn s.g_instance s.g_event_thread h.0) h.1

pub Stopped→Coherent : (s : Session) → Stopped s → Coherent s
Stopped→Coherent s h = ground arith

-- The connection that start_connection begins with.
abbrev pub cleared : Session → Session
cleared s = if has_connection s then stop_connection s else s

pub stop_running : (s : Session) → (stop_connection s).g_running ≡ s.g_running
unfolding stop_connection join_thread free_instance leave_loop
stop_running s = ground arith

pub clear-Stopped :
    (s : Session)
    → Coherent s
    → s.g_running ≡ true
    → Stopped (cleared s) × ((cleared s).g_running ≡ true)
clear-Stopped s h on = elim (Bool-cases (has_connection s)) [
  | inl some_connection ↦ rw some_connection (stop-Owned s h.0, stop_running s ∙ on)
  | inr no_connection ↦ ground arith
]
