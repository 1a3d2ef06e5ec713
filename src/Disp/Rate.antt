-- ===== src/Disp/Rate.antt =====
-- The times between the layouts that disp.c sends.
use rdp_mcp.Prelude.{
  ℕ, ◌+◌, ◌≤◌, ◌<◌, ◌≡◌, refl, true, false, some, List, [], ◌∷◌, ◌++◌, inl, inr, arith, Bool-cases,
  Option-cases, ltb, leb, if◌then◌else◌, append_assoc, ap, ◌∙◌, sym, not, ◌||◌,
}
use rdp_mcp.Disp.{
  Disp, Size, Sent, Env, Event, init, connected, disconnected, caps, check, set_initial, request,
  clamp_size, layout_of, record_sent, elapsed, inactive, disp_rate_limit_ms, send_resize_locked,
  disp_set_initial_layout, disp_check_pending, disp_request_resize, step, run,
}

-- The time of the newest successful send of a log, newest first; `last` if there is none.
abbrev pub latest : ℕ → List Sent → ℕ
latest last [] = last
latest last (t ∷ ts) = if t.ok then t.at else latest last ts

-- Each successful send comes 200 ms or more after the successful send before it.
abbrev pub Spaced : ℕ → List Sent → Type 0
Spaced last [] = Unit
Spaced last (t ∷ ts) = ((not t.ok || leb (latest last ts + 200) t.at) ≡ true) × Spaced last ts

-- All calls but a new initialisation and the capability callback.
abbrev pub Limited : Event → Type 0
Limited init = ⊥
Limited (caps e) = ⊥
Limited _ = Unit

-- The clock when a call begins, and when it ends.
abbrev pub begins : ℕ → Event → ℕ
begins c (check e) = e.now
begins c (request z e) = e.now
begins c _ = c

abbrev pub ends : ℕ → Event → ℕ
ends c (check e) = e.after
ends c (request z e) = e.after
ends c _ = c

-- GetTickCount64 never goes back, and stays below 2 ^ 64.
abbrev pub Timely : ℕ → List Event → Type 0
Timely c [] = Unit
Timely c (e ∷ es) =
    Limited e
    × (c ≤ begins c e)
    × (begins c e ≤ ends c e)
    × (ends c e < 18446744073709551616)
    × Timely (ends c e) es

-- What one call adds to the log.
abbrev Adds : Disp → Disp → List Sent → Type 0
Adds s s' new =
    (s'.sent ≡ new ++ s.sent)
    × Spaced s.last_send_ms new
    × (s'.last_send_ms ≡ latest s.last_send_ms new)

pub send_active :
    (z : Size) (e : Env) (s : Disp)
    → inactive s ≡ false
    → (c : ℕ) × (s.disp ≡ some c) × (send_resize_locked z e s ≡ record_sent c z e s)
unfolding send_resize_locked
send_active z e s h = elim (Option-cases s.disp) [
  | inl n ↦ absurd (ground (arith, h))
  | inr (c, d) ↦ (c, d, ground arith)
]

abbrev one_sent : ℕ → Size → Env → List Sent
one_sent c z e = record { context = c; layout = layout_of z; ok = e.ok; at = e.after } ∷ []

request-Adds :
    (z : Size) (e : Env) (s : Disp)
    → s.last_send_ms ≤ e.now
    → e.now ≤ e.after
    → e.after < 18446744073709551616
    → (new : List Sent) × Adds s (disp_request_resize z e s) new
unfolding disp_request_resize
request-Adds z e s h₁ h₂ h₃ = elim (Bool-cases (inactive s)) [
  | inl off ↦ ([], rw off (refl, tt, refl))
  | inr on ↦ elim (Bool-cases (ltb (elapsed e s) disp_rate_limit_ms)) [
    | inl soon ↦ ([], rw (on, soon) (refl, tt, refl))
    | inr late ↦
        let (c, d, sends) = send_active (clamp_size z) e s on in
        (one_sent c (clamp_size z) e, rw (on, late, sends) (refl, ground arith, refl))
  ]
]

check-Adds :
    (e : Env) (s : Disp)
    → s.last_send_ms ≤ e.now
    → e.now ≤ e.after
    → e.after < 18446744073709551616
    → (new : List Sent) × Adds s (disp_check_pending e s) new
unfolding disp_check_pending
check-Adds e s h₁ h₂ h₃ = elim (Bool-cases (not s.pending || inactive s)) [
  | inl off ↦ ([], rw off (refl, tt, refl))
  | inr on ↦ elim (Bool-cases (ltb (elapsed e s) disp_rate_limit_ms)) [
    | inl soon ↦ ([], rw (on, soon) (refl, tt, refl))
    | inr late ↦
        let (c, d, sends) =
          send_active s.pending_size e (record s { pending = false }) (ground (arith, on)) in
        (one_sent c s.pending_size e, rw (on, late, sends) (refl, ground arith, refl))
  ]
]

step-Adds :
    (e : Event) (s : Disp) (c : ℕ)
    → Limited e
    → s.last_send_ms ≤ c
    → c ≤ begins c e
    → begins c e ≤ ends c e
    → ends c e < 18446744073709551616
    → (new : List Sent) × Adds s (step e s) new
unfolding step disp_set_initial_layout
step-Adds init s c l h h₁ h₂ h₃ = absurd l
step-Adds (caps e) s c l h h₁ h₂ h₃ = absurd l
step-Adds (connected k) s c l h h₁ h₂ h₃ = ([], (refl, tt, refl))
step-Adds disconnected s c l h h₁ h₂ h₃ = ([], (refl, tt, refl))
step-Adds (set_initial z) s c l h h₁ h₂ h₃ = ([], (ground arith, tt, ground arith))
step-Adds (check e) s c l h h₁ h₂ h₃ = check-Adds e s (omega arith) h₂ h₃
step-Adds (request z e) s c l h h₁ h₂ h₃ = request-Adds z e s (omega arith) h₂ h₃

latest-append :
    (last : ℕ) (new old : List Sent) → latest last (new ++ old) ≡ latest (latest last old) new
latest-append last [] old = refl
latest-append last (t ∷ new) old = ground (arith, latest-append last new old)

Spaced-append :
    (last : ℕ) (new old : List Sent)
    → Spaced last old
    → Spaced (latest last old) new
    → Spaced last (new ++ old)
Spaced-append last [] old ho hn = ho
Spaced-append last (t ∷ new) old ho hn =
    (rw (latest-append last new old) hn.0, Spaced-append last new old ho hn.1)

send_last :
    (z : Size) (e : Env) (s : Disp) (k : ℕ)
    → s.last_send_ms ≤ k
    → e.after ≤ k
    → (send_resize_locked z e s).last_send_ms ≤ k
unfolding send_resize_locked
send_last z e s k h h' = ground arith

-- The time of the last send stays behind the clock.
step_last :
    (e : Event) (s : Disp) (c : ℕ)
    → s.last_send_ms ≤ c
    → Limited e
    → c ≤ begins c e
    → begins c e ≤ ends c e
    → (step e s).last_send_ms ≤ ends c e
unfolding step disp_set_initial_layout disp_check_pending disp_request_resize
step_last init s c h l h₁ h₂ = absurd l
step_last (caps e) s c h l h₁ h₂ = absurd l
step_last (connected k) s c h l h₁ h₂ = h
step_last disconnected s c h l h₁ h₂ = h
step_last (set_initial z) s c h l h₁ h₂ = ground arith
step_last (check e) s c h l h₁ h₂ =
    ground (arith, send_last s.pending_size e (record s { pending = false }) e.after)
step_last (request z e) s c h l h₁ h₂ = ground (arith, send_last (clamp_size z) e s e.after)

-- Over any calls after a state of the module other than a new initialisation and the capability
-- callback, made while the clock does not go back: every layout that FreeRDP accepts comes 200 ms or
-- more after the one accepted before it, the last one before these calls included.
pub run-Spaced :
    (es : List Event) (s : Disp) (c : ℕ)
    → s.last_send_ms ≤ c
    → Timely c es
    → (new : List Sent) × ((run es s).sent ≡ new ++ s.sent) × Spaced s.last_send_ms new
unfolding run
run-Spaced [] s c h t = ([], refl, tt)
run-Spaced (e ∷ es) s c h (l, h₁, h₂, h₃, t) =
    let (new, added) = step-Adds e s c l h h₁ h₂ h₃ in
    let (sent, spaced, last) = added in
    let (more, sent', spaced') =
      run-Spaced es (step e s) (ends c e) (step_last e s c h l h₁ h₂) t in
    (
      more ++ new,
      sent' ∙ ap (◌++◌ more) sent ∙ sym (append_assoc more new s.sent),
      Spaced-append s.last_send_ms more new spaced (rw last at spaced'),
    )
