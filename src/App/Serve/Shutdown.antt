-- ===== src/App/Serve/Shutdown.antt =====
-- internal/app/app.go: how serve ends.
use portfolio_backend.Base.{
  Option-cases, ◌<◌, ◌≡◌, ◌⊎◌, inl, inr, refl, ℕ, ◌+◌, ◌≤◌, ◌∙◌, Bool, true, false, Option, none,
  some, arith, if◌then◌else◌,
}
use portfolio_backend.App.Serve.{
  ServeError, server_closed, other, Outcome, clean, serve_failed, shutdown_failed, stop_failed,
  Phase, selecting, shutting_down, receiving, returned, Serving, serving, select_outcome,
  after_shutdown, stop_outcome, Step,
}

-- Runs of a number of steps.
pub data Run : ℕ → Serving → Type 0 where
  start : Run 0 serving
  more : {n : ℕ} {s t : Serving} → Run n s → Step s t → Run (n + 1) t

-- What an outcome says: of cancellation, of what the server returned, and of Close.
abbrev pub Reports : Outcome → Bool → Option (Option ServeError) → Bool → Type 0
Reports clean cancelled stopped closed =
    ((stopped ≡ some (some server_closed)) ⊎ ((stopped ≡ some none) × (cancelled ≡ true)))
    × (closed ≡ false)
Reports serve_failed cancelled stopped closed =
    ((stopped ≡ some none) ⊎ (stopped ≡ some (some other))) × (closed ≡ false)
Reports shutdown_failed cancelled stopped closed = (cancelled ≡ true) × (closed ≡ true)
Reports stop_failed cancelled stopped closed =
    (stopped ≡ some (some other)) × (cancelled ≡ true) × (closed ≡ false)

-- The invariant, by the phase: until the function takes the error of the server, the buffer has it.
abbrev SoundAt :
    Phase → Bool → Option (Option ServeError) → Option (Option ServeError) → Bool → Type 0
SoundAt selecting cancelled stopped buffer closed = (buffer ≡ stopped) × (closed ≡ false)
SoundAt (returned o) cancelled stopped buffer closed = Reports o cancelled stopped closed
SoundAt _ cancelled stopped buffer closed =
    (buffer ≡ stopped) × (closed ≡ false) × (cancelled ≡ true)

abbrev Sound : Serving → Type 0
Sound s = SoundAt s.phase s.cancelled s.stopped s.server_errors s.closed

stop-SoundAt :
    (p : Phase) (c closed : Bool) (stopped buffer : Option (Option ServeError))
    (e : Option ServeError)
    → stopped ≡ none
    → SoundAt p c stopped buffer closed
    → SoundAt p c (some e) (some e) closed
stop-SoundAt selecting c closed stopped buffer e h s = (refl, s.1)
stop-SoundAt shutting_down c closed stopped buffer e h s = (refl, s.1, s.2)
stop-SoundAt receiving c closed stopped buffer e h s = (refl, s.1, s.2)
stop-SoundAt (returned clean) c closed stopped buffer e h s = absurd (ground (arith, h, s))
stop-SoundAt (returned serve_failed) c closed stopped buffer e h s = absurd (ground (arith, h, s))
stop-SoundAt (returned shutdown_failed) c closed stopped buffer e h s = s
stop-SoundAt (returned stop_failed) c closed stopped buffer e h s = absurd (ground (arith, h, s))

cancel-SoundAt :
    (p : Phase) (c closed : Bool) (stopped buffer : Option (Option ServeError))
    → SoundAt p c stopped buffer closed
    → SoundAt p true stopped buffer closed
cancel-SoundAt selecting c closed stopped buffer s = s
cancel-SoundAt shutting_down c closed stopped buffer s = (s.0, s.1, refl)
cancel-SoundAt receiving c closed stopped buffer s = (s.0, s.1, refl)
cancel-SoundAt (returned clean) c closed stopped buffer s = ground arith
cancel-SoundAt (returned serve_failed) c closed stopped buffer s = s
cancel-SoundAt (returned shutdown_failed) c closed stopped buffer s = (refl, s.1)
cancel-SoundAt (returned stop_failed) c closed stopped buffer s = (s.0, refl, s.2)

select-Reports :
    (e : Option ServeError) (c closed : Bool) (stopped buffer : Option (Option ServeError))
    → buffer ≡ some e
    → (buffer ≡ stopped) × (closed ≡ false)
    → Reports (select_outcome e) c stopped closed
unfolding select_outcome
select-Reports none c closed stopped buffer h s = ground arith
select-Reports (some server_closed) c closed stopped buffer h s = ground arith
select-Reports (some other) c closed stopped buffer h s = ground arith

receive-Reports :
    (e : Option ServeError) (c closed : Bool) (stopped buffer : Option (Option ServeError))
    → buffer ≡ some e
    → (buffer ≡ stopped) × (closed ≡ false) × (c ≡ true)
    → Reports (stop_outcome e) c stopped closed
unfolding stop_outcome
receive-Reports none c closed stopped buffer h s = ground arith
receive-Reports (some server_closed) c closed stopped buffer h s = ground arith
receive-Reports (some other) c closed stopped buffer h s = ground arith

Step-Sound : {s t : Serving} → Step s t → Sound s → Sound t
unfolding after_shutdown
Step-Sound {s} (Step.stop e h) i = stop-SoundAt s.phase _ _ _ _ e h i
Step-Sound {s} (Step.cancel h) i = cancel-SoundAt s.phase _ _ _ _ i
Step-Sound {s} (Step.select_error {e} p h) i = select-Reports e _ _ _ _ h (rw p at i)
Step-Sound {s} (Step.select_done p h) i = let j = rw p at i in (j.0, j.1, h)
Step-Sound {s} (Step.shutdown true p) i = rw p at i
Step-Sound {s} (Step.shutdown false p) i = let j = rw p at i in (j.2, refl)
Step-Sound {s} (Step.receive {e} p h) i = receive-Reports e _ _ _ _ h (rw p at i)

Run-Sound : {n : ℕ} {s : Serving} → Run n s → Sound s
Run-Sound Run.start = (refl, refl)
Run-Sound (Run.more r step) = Step-Sound step (Run-Sound r)

-- What is left to do, at most.
abbrev pub rank : Phase → ℕ
rank selecting = 3
rank shutting_down = 2
rank receiving = 1
rank (returned o) = 0

abbrev running : Option (Option ServeError) → ℕ
running none = 1
running (some e) = 0

abbrev steps_left : Serving → ℕ
steps_left s = rank s.phase + (if s.cancelled then 0 else 1) + running s.stopped

Step-steps_left : {s t : Serving} → Step s t → steps_left t + 1 ≤ steps_left s
unfolding after_shutdown
Step-steps_left (Step.stop e h) = rw h (omega arith)
Step-steps_left (Step.cancel h) = rw h (omega arith)
Step-steps_left (Step.select_error p h) = rw p (omega arith)
Step-steps_left (Step.select_done p h) = rw p (omega arith)
Step-steps_left (Step.shutdown true p) = rw p (omega arith)
Step-steps_left (Step.shutdown false p) = rw p (omega arith)
Step-steps_left (Step.receive p h) = rw p (omega arith)

Run-steps_left : {n : ℕ} {s : Serving} → Run n s → n + steps_left s ≤ 5
Run-steps_left Run.start = omega arith
Run-steps_left (Run.more r step) = omega (arith, Run-steps_left r, Step-steps_left step)

-- A step that the function itself takes: it gets to another place.
abbrev pub Moves : Serving → Type 0
Moves s = (t : Serving) × Step s t × (rank t.phase < rank s.phase)

-- The server has not returned yet, and the function moves as soon as it has, with whatever error.
abbrev pub AwaitsServer : Serving → Type 0
AwaitsServer s =
    (s.phase ≡ receiving)
    × (s.stopped ≡ none)
    × ((e : Option ServeError) → Moves (record s { stopped = some e; server_errors = some e }))

receive-Moves :
    (s : Serving) (e : Option ServeError) → s.phase ≡ receiving → s.server_errors ≡ some e → Moves s
receive-Moves s e p h = (_, Step.receive {e = e} p h, rw p (omega arith))

-- At the last receive, the error is in the buffer, or the server has not returned.
receive-next :
    (s : Serving) → s.phase ≡ receiving → s.server_errors ≡ s.stopped → Moves s ⊎ AwaitsServer s
receive-next s p same = elim (Option-cases s.stopped) [
  | inl running ↦ inr (
    p,
    running,
    λ e. receive-Moves (record s { stopped = some e; server_errors = some e }) e p refl,
  )
  | inr (e, h) ↦ inl (receive-Moves s e p (same ∙ h))
]

-- After cancellation the function has returned, or goes on, or waits for the server that it has shut down.
goes_on :
    (p : Phase) (s : Serving)
    → s.phase ≡ p
    → s.cancelled ≡ true
    → Sound s
    → ((o : Outcome) × (s.phase ≡ returned o)) ⊎ (Moves s ⊎ AwaitsServer s)
unfolding after_shutdown
goes_on selecting s p h i = inr (inl (_, Step.select_done p h, rw p (omega arith)))
goes_on shutting_down s p h i = inr (inl (_, Step.shutdown true p, rw p (omega arith)))
goes_on receiving s p h i = inr (receive-next s p ((rw p at i).0))
goes_on (returned o) s p h i = inl (o, p)

-- Once the context is cancelled, serve ends: at every point of a run it has returned, or can take a
-- step of its own, which brings it nearer to its return, or is at its last receive, where the
-- server that was shut down has not returned and its return is all that is missing, with whatever
-- error. No run has more than five steps.
pub serve-ends :
    {n : ℕ} {s : Serving}
    → Run n s
    → s.cancelled ≡ true
    → (n ≤ 5) × (((o : Outcome) × (s.phase ≡ returned o)) ⊎ (Moves s ⊎ AwaitsServer s))
serve-ends {s = s} r h = (omega (arith, Run-steps_left r), goes_on s.phase s refl h (Run-Sound r))

-- What serve returns, in any order of the steps: nil only if server.Serve has returned, with ErrServerClosed or,
-- after cancellation, with nil; the error of Shutdown only after cancellation, and only then is the server
-- closed; any other error only if server.Serve returned something other than ErrServerClosed.
pub serve-Reports :
    {n : ℕ} {s : Serving} {o : Outcome}
    → Run n s
    → s.phase ≡ returned o
    → Reports o s.cancelled s.stopped s.closed
serve-Reports r h = rw h at (Run-Sound r)
