-- ===== src/Examples/Server.antt =====
-- Runs of the server, and its start and messages, at concrete inputs.
use boot_backend_go_clean.Common.{
  ◌+◌, ◌≤◌, ◌≡◌, ◌≢◌, ◌⊎◌, ◌&&◌, ◌||◌, not, refl, true, Option, none, some, List, [], ◌∷◌, ◌++◌,
}
use mathlib.Core.List.{foldl}
use boot_backend_go_clean.Common.Text.{codes, byte_length}
use boot_backend_go_clean.Errors.{Error, text_error}
use boot_backend_go_clean.Effect.{ok}
use boot_backend_go_clean.Server.Lifecycle.{
  returned, State, start, Move, launch, announce, accept, signal, take_done, request, complete,
  hang_up, drained, close_resources, serve_closed, serve_fails, send, application_stopped,
  database_closed, closing_database, take_closed, step, Reach, here, next,
}
use boot_backend_go_clean.Server.Channel.{
  has_state, is_failed, is_finished, is_graceful, has_error, channel_lem,
}
use boot_backend_go_clean.Server.Closing.{was_forced, returned_lem}
use boot_backend_go_clean.Server.Progress.{work, own_moves, is_prompt, own_moves-le, progress}
use boot_backend_go_clean.Server.Messages.{warning, lead, write, write_lem}
use boot_backend_go_clean.Validation.{is_space}
use boot_backend_go_clean.Logger.{warn_level}

abbrev initial : State
initial = start true

record Run : Type 0 where
  last : State
  reach : Reach initial last

abbrev advance : (r : Run) (m : Move) (o : Option State) → step m r.last ≡ o → Run
advance r m none e = r
advance r m (some t) e = record { last = t; reach = next r.reach m e }

-- A move that cannot be made is passed over.
turn : Run → Move → Run
turn r m = advance r m (step m r.last) refl

run_all : List Move → Run
unfolding turn
run_all ms = foldl turn (record { last = initial; reach = here }) ms

-- A request runs when the signal comes, and ends before the shutdown does.
abbrev stopped : Run
stopped = run_all (
    launch
    ∷ announce
    ∷ accept
    ∷ request
    ∷ signal
    ∷ take_done
    ∷ complete
    ∷ hang_up
    ∷ serve_closed
    ∷ drained
    ∷ close_resources none
    ∷ [])

returned_lem_example :
    (stopped.last.closes ≡ 1)
    × (step accept stopped.last ≡ none)
    × ((has_error none ≡ true)
        ⊎ (was_forced stopped.last.lines ≡ true)
        ⊎ ((stopped.last.in_flight ≡ 0) × (step request stopped.last ≡ none)))
unfolding run_all step turn
returned_lem_example = returned_lem none stopped.reach refl (λ e. cc)

abbrev idle : Run
idle =
    run_all (
      launch ∷ announce ∷ accept ∷ request ∷ signal ∷ take_done ∷ complete ∷ hang_up ∷ drained ∷ [])

abbrev closed : State
closed = record idle.last {
  phase = returned none;
  closes = 1;
  lines = application_stopped ∷ database_closed ∷ closing_database ∷ idle.last.lines;
}

abbrev port_in_use : Error
port_in_use = text_error "listen tcp :8080: bind: address already in use"

-- The port is taken: the error waits in the channel.
abbrev failing : Run
failing = run_all (launch ∷ announce ∷ serve_fails port_in_use ∷ [])

channel_lem_example :
    (has_state (step send failing.last) ≡ is_failed failing.last.server)
    × (failing.last.closed ≡ is_finished failing.last.server)
    × (step take_closed failing.last ≡ none)
    × ((not (is_graceful failing.last.phase) || failing.last.stopping && failing.last.cancelled)
        ≡ true)
channel_lem_example = channel_lem failing.reach

own_moves-le_example : own_moves stopped.reach + work stopped.last ≤ 9
own_moves-le_example = own_moves-le stopped.reach

progress_example : (m : Move) × (is_prompt m ≡ true) × (step m failing.last ≢ none)
unfolding run_all step turn
progress_example = progress failing.reach refl refl

write_lem_example : write ((lead warning ++ codes "Running in \"debug\" mode.") ++ 10 ∷ []) [] ≡ (
  ok (byte_length ((lead warning ++ codes "Running in \"debug\" mode.") ++ 10 ∷ [])),
  record { level = warn_level; message = codes "Running in \"debug\" mode." } ∷ [],
)
unfolding is_space
write_lem_example =
    write_lem warning b'R' b'.' (codes "unning in \"debug\" mode.")
      (codes "Running in \"debug\" mode") [] refl refl refl refl
