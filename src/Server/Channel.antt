-- ===== src/Server/Channel.antt =====
-- The channel between Run and the goroutine that serves, and what Run returns.
use boot_backend_go_clean.Common.{
  Bool, true, false, not, ◌&&◌, ◌||◌, Option, none, some, ◌≡◌, arith,
}
use boot_backend_go_clean.Errors.{Error}
use boot_backend_go_clean.Server.Lifecycle.{
  Phase, starting, waiting, draining, cleaning, closing, returned, Server, unstarted, failed,
  finishing, finished, State, start, shutdown, Move, refuse_proxies, take_closed, send, step, Reach,
  here, next,
}

abbrev pub has_ended : Server → Bool
has_ended finishing = true
has_ended finished = true
has_ended _ = false

abbrev pub is_finished : Server → Bool
is_finished finished = true
is_finished _ = false

abbrev pub is_unstarted : Server → Bool
is_unstarted unstarted = true
is_unstarted _ = false

abbrev pub is_starting : Phase → Bool
is_starting starting = true
is_starting _ = false

abbrev pub is_waiting : Phase → Bool
is_waiting waiting = true
is_waiting _ = false

-- After the context is cancelled: the second branch of the select and what follows it.
abbrev pub is_graceful : Phase → Bool
is_graceful draining = true
is_graceful closing = true
is_graceful (returned none) = true
is_graceful _ = false

abbrev pub is_cleaning : Phase → Bool
is_cleaning (cleaning _) = true
is_cleaning _ = false

abbrev pub has_error : Option Error → Bool
has_error none = false
has_error (some e) = true

abbrev pub is_nil_cleaning : Phase → Bool
is_nil_cleaning (cleaning none) = true
is_nil_cleaning _ = false

-- Before the goroutine has been started, and for good where it is not.
abbrev pub is_outside : Phase → Bool
is_outside starting = true
is_outside (returned (some e)) = true
is_outside _ = false

pub record Inv (s : State) : Type 0 where
  pub empty : has_ended s.server ≡ false → s.buffer ≡ none
  pub unclosed : is_finished s.server ≡ false → s.closed ≡ false
  pub closed_at_end : is_finished s.server ≡ true → s.closed ≡ true
  pub filled : is_waiting s.phase ≡ true → has_ended s.server ≡ true → has_error s.buffer ≡ true
  pub unstarted_first : is_starting s.phase ≡ true → is_unstarted s.server ≡ true
  pub started : is_unstarted s.server ≡ false → is_starting s.phase ≡ false
  pub unstopped : is_starting s.phase ≡ true → s.stopping ≡ false
  pub unstopped_waiting : is_waiting s.phase ≡ true → s.stopping ≡ false
  pub stopped : is_graceful s.phase ≡ true → (s.stopping ≡ true) × (s.cancelled ≡ true)
  pub cleaned_after : is_cleaning s.phase ≡ true → has_ended s.server ≡ true
  pub outside : is_unstarted s.server ≡ true → is_outside s.phase ≡ true
  pub never_nil : is_nil_cleaning s.phase ≡ false

start-Inv : (db : Bool) → Inv (start db)
start-Inv db = ground arith

pub step-Inv : (m : Move) {s t : State} → step m s ≡ some t → Inv s → Inv t
unfolding step shutdown
step-Inv (refuse_proxies e) h i = ground arith
step-Inv m h i = ground arith

pub Reach-Inv : {db : Bool} {s : State} → Reach (start db) s → Inv s
Reach-Inv {db} here = start-Inv db
Reach-Inv (next r m h) = step-Inv m h (Reach-Inv r)

abbrev pub is_failed : Server → Bool
is_failed (failed _) = true
is_failed _ = false

abbrev pub has_state : Option State → Bool
has_state none = false
has_state (some s) = true

-- In every reachable state of Run and its goroutine: the goroutine can send an error just where
-- ListenAndServe has failed, so that it is never kept waiting, and the channel is closed just where
-- the goroutine has ended, so that it is closed once; Run never takes a nil error from the channel;
-- and where Run is past the signal, or has returned nil, the context is cancelled and Shutdown has
-- been called.
pub channel_lem :
    {db : Bool} {s : State}
    → Reach (start db) s
    → (has_state (step send s) ≡ is_failed s.server)
      × (s.closed ≡ is_finished s.server)
      × (step take_closed s ≡ none)
      × ((not (is_graceful s.phase) || s.stopping && s.cancelled) ≡ true)
unfolding step
channel_lem r = let i = Reach-Inv r in (ground arith, ground arith, ground arith, ground arith)
