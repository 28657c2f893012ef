-- ===== src/Server/Progress.antt =====
-- Run ends: how many moves it and its goroutine make, and when one of them can be made.
use boot_backend_go_clean.Common.{
  ℕ, suc, ◌+◌, ◌≤◌, Bool, true, false, none, some, ◌≡◌, ◌≢◌, ◌||◌, arith, if◌then◌else◌,
}
use boot_backend_go_clean.Errors.{Error, text_error}
use boot_backend_go_clean.Server.Lifecycle.{
  Phase, starting, waiting, draining, cleaning, closing, returned, Server, unstarted, spawned,
  serving, failed, finishing, finished, State, start, shutdown, Move, launch, take_error, take_done,
  forced, clean, close_resources, refuse_proxies, serve_fails, send, signal, accept, request,
  complete, hang_up, step, Reach, here, next,
}
use boot_backend_go_clean.Server.Channel.{Reach-Inv, is_unstarted, is_starting}
use boot_backend_go_clean.Server.Closing.{is_returned}

-- The moves that are left to Run and to its goroutine.
abbrev phase_work : Phase → ℕ
phase_work starting = 4
phase_work waiting = 3
phase_work draining = 2
phase_work (cleaning _) = 1
phase_work closing = 1
phase_work (returned _) = 0

abbrev server_work : Server → ℕ
server_work unstarted = 5
server_work spawned = 4
server_work serving = 3
server_work (failed _) = 2
server_work finishing = 1
server_work finished = 0

abbrev pub work : State → ℕ
work s = phase_work s.phase + server_work s.server

-- A move of the program, and not of the signal, the clients or their connections.
abbrev pub is_own : Move → Bool
is_own signal = false
is_own accept = false
is_own request = false
is_own complete = false
is_own hang_up = false
is_own _ = true

abbrev pub own_moves : {s t : State} → Reach s t → ℕ
own_moves here = 0
own_moves (next r m h) = if is_own m then suc (own_moves r) else own_moves r

step-work :
    (m : Move) (s t : State)
    → step m s ≡ some t
    → (is_starting s.phase ≡ true → is_unstarted s.server ≡ true)
    → work t + (if is_own m then 1 else 0) ≤ work s
unfolding step shutdown
step-work signal s t h i = ground arith
step-work m s t h i = ground arith

-- In each of its runs, however long, Run and its goroutine make at most nine moves: nothing that
-- the clients do lets them go on for ever.
pub own_moves-le : {db : Bool} {s : State} (r : Reach (start db) s) → own_moves r + work s ≤ 9
own_moves-le here = omega arith
own_moves-le (next r m h) =
    ground (arith, own_moves-le r, step-work m _ _ h (Reach-Inv r).unstarted_first)

abbrev is_down : Server → Bool
is_down (failed e) = true
is_down finishing = true
is_down finished = true
is_down _ = false

-- The signal has come, or the server is down.
abbrev pub is_ending : State → Bool
is_ending s = s.cancelled || is_down s.server

-- A move of Run or of its goroutine that waits for no failure of the listener or of the router.
abbrev pub is_prompt : Move → Bool
is_prompt (serve_fails e) = false
is_prompt (refuse_proxies e) = false
is_prompt m = is_own m

abbrev deadline : Error
deadline = text_error "context deadline exceeded"

-- What Run does next, where the close of the database succeeds and the grace period passes.
abbrev own_move : Phase → Bool → Server → Move
own_move starting c v = launch
own_move waiting true v = take_done
own_move waiting false (failed e) = send
own_move waiting false _ = take_error
own_move draining c v = forced deadline
own_move (cleaning err) c v = clean none
own_move closing c v = close_resources none
own_move (returned err) c v = launch

-- In every reachable state in which the context is cancelled or the server is down, and Run has
-- not returned, Run or its goroutine can make a move, which is no failure of the listener: the
-- goroutine sends what has failed, or Run takes its next step, at the latest when the grace
-- period has passed.
pub progress :
    {db : Bool} {s : State}
    → Reach (start db) s
    → is_ending s ≡ true
    → is_returned s.phase ≡ false
    → (m : Move) × (is_prompt m ≡ true) × (step m s ≢ none)
unfolding step
progress {s} r e live =
    let i = Reach-Inv r in (own_move s.phase s.cancelled s.server, ground arith, ground arith)
