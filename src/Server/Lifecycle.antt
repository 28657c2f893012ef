-- ===== src/Server/Lifecycle.antt =====
-- Run and shutdown of internal/app/server/app.go, as steps of the goroutine that blocks in Run, of
-- the goroutine that serves, and of what is outside: the signal, the clients and the deadline.
use boot_backend_go_clean.Common.{
  ℕ, suc, ◌-◌, ◌==◌, ltb, Bool, true, false, not, ◌&&◌, Option, none, some, List, [], ◌∷◌, ◌≡◌,
  if◌then◌else◌,
}
use boot_backend_go_clean.Errors.{Error, wrapped}

-- The messages of Run, of the goroutine and of shutdown.
pub data Line : Type 0 where
  listening : Line
  shutdown_signal : Line
  drained_successfully : Line
  forced_to_shutdown : Error → Line
  closing_database : Line
  error_closing_database : Error → Line
  database_closed : Line
  application_stopped : Line

-- Where Run stands: before SetTrustedProxies, in the select, in httpServer.Shutdown, before the
-- app.shutdown() of the first branch of the select with the error that it returns, before the last
-- app.shutdown(), and after its return.
pub data Phase : Type 0 where
  starting waiting draining : Phase
  cleaning : Option Error → Phase
  closing : Phase
  returned : Option Error → Phase

-- Where the goroutine stands: not started, before its first message, in ListenAndServe, before the
-- send of the error, before close(serverErr), and at its end.
pub data Server : Type 0 where
  unstarted spawned serving : Server
  failed : Error → Server
  finishing finished : Server

pub record State : Type 0 where
  pub phase : Phase
  pub server : Server
  -- the channel serverErr of capacity 1: what it holds, and whether it is closed
  pub buffer : Option Error
  pub closed : Bool
  -- ctx.Done()
  pub cancelled : Bool
  -- httpServer.Shutdown has been called; the accepted connections on which no request runs; the
  -- requests whose handlers run
  pub stopping : Bool
  pub connections : ℕ
  pub in_flight : ℕ
  -- app.DB != nil; the calls of app.DB.Close
  pub has_database : Bool
  pub closes : ℕ
  -- the messages, the last one first
  pub lines : List Line

-- The application after Initialize, when Run is called.
abbrev pub start : Bool → State
start has_database = record {
  phase = starting;
  server = unstarted;
  buffer = none;
  closed = false;
  cancelled = false;
  stopping = false;
  connections = 0;
  in_flight = 0;
  has_database = has_database;
  closes = 0;
  lines = [];
}

-- shutdown; `result` is that of app.DB.Close
abbrev pub close_line : Option Error → Line
close_line none = database_closed
close_line (some e) = error_closing_database e

unfoldable pub shutdown : Option Error → State → State
shutdown result s =
    if s.has_database
    then record s { closes = suc s.closes; lines = close_line result ∷ closing_database ∷ s.lines }
    else s

-- What happens next, with the result that a call has.
pub data Move : Type 0 where
  -- Run
  refuse_proxies : Error → Move
  launch take_error take_closed take_done drained : Move
  forced : Error → Move
  clean close_resources : Option Error → Move
  -- the goroutine
  announce serve_closed send close_channel : Move
  serve_fails : Error → Move
  -- the signal; the clients, whose requests run on the connections that are open, and the server,
  -- which closes a connection
  signal accept request complete hang_up : Move

-- A move that can be made only where the test holds.
abbrev when : Bool → State → Option State
when b s = if b then some s else none

abbrev is_draining : Phase → Bool
is_draining draining = true
is_draining _ = false

abbrev is_waiting : Phase → Bool
is_waiting waiting = true
is_waiting _ = false

abbrev pub is_serving : Server → Bool
is_serving serving = true
is_serving _ = false

abbrev log : Line → State → State
log line s = record s { lines = line ∷ s.lines }

-- if err := app.Router.SetTrustedProxies(nil); err != nil { return err }
abbrev refuse : Error → Phase → State → Option State
refuse e starting s = some (record s { phase = returned (some e) })
refuse e _ s = none

-- The server is made and the goroutine is started.
abbrev launched : Phase → State → Option State
launched starting s = some (record s { phase = waiting; server = spawned })
launched _ s = none

-- case err := <-serverErr, with the error that is sent, or nil from a closed channel
abbrev received : Option Error → State → Option State
received none s = none
received (some e) s =
    when (is_waiting s.phase) (record s { phase = cleaning (some e); buffer = none })

abbrev received_nil : Option Error → State → Option State
received_nil none s = when (is_waiting s.phase && s.closed) (record s { phase = cleaning none })
received_nil (some e) s = none

abbrev cleaned : Option Error → Phase → State → Option State
unfolding shutdown
cleaned result (cleaning err) s = some (record (shutdown result s) { phase = returned err })
cleaned result _ s = none

abbrev finished_run : Option Error → Phase → State → Option State
unfolding shutdown
finished_run result closing s =
    some (log application_stopped (record (shutdown result s) { phase = returned none }))
finished_run result _ s = none

-- The body of the goroutine.
abbrev announced : Server → State → Option State
announced spawned s = some (log listening (record s { server = serving }))
announced _ s = none

-- A send to a full channel waits.
abbrev sent : Server → Option Error → State → Option State
sent (failed e) none s = some (record s { server = finishing; buffer = some e })
sent _ _ s = none

abbrev channel_closed : Server → State → Option State
channel_closed finishing s = some (record s { server = finished; closed = true })
channel_closed _ s = none

unfoldable pub step : Move → State → Option State
unfolding shutdown
step (refuse_proxies e) s = refuse e s.phase s
step launch s = launched s.phase s
step take_error s = received s.buffer s
step take_closed s = received_nil s.buffer s
step take_done s =
    when (is_waiting s.phase && s.cancelled)
      (log shutdown_signal (record s { phase = draining; stopping = true }))
step drained s =
    when (is_draining s.phase && s.in_flight == 0 && s.connections == 0)
      (log drained_successfully (record s { phase = closing }))
step (forced e) s =
    when (is_draining s.phase) (log (forced_to_shutdown e) (record s { phase = closing }))
step (clean result) s = cleaned result s.phase s
step (close_resources result) s = finished_run result s.phase s
step announce s = announced s.server s
step serve_closed s = when (is_serving s.server && s.stopping) (record s { server = finishing })
step (serve_fails e) s =
    when (is_serving s.server) (record s { server = failed (wrapped "HTTP server error" e) })
step send s = sent s.server s.buffer s
step close_channel s = channel_closed s.server s
step signal s = some (record s { cancelled = true })
step accept s =
    when (is_serving s.server && not s.stopping) (record s { connections = suc s.connections })
step request s =
    when (ltb 0 s.connections)
      (record s { connections = s.connections - 1; in_flight = suc s.in_flight })
step complete s =
    when (ltb 0 s.in_flight)
      (record s { connections = suc s.connections; in_flight = s.in_flight - 1 })
step hang_up s = when (ltb 0 s.connections) (record s { connections = s.connections - 1 })

-- Any interleaving of the moves.
pub data Reach (s : State) : State → Type 0 where
  here : Reach s s
  next : {t u : State} → Reach s t → (m : Move) → step m t ≡ some u → Reach s u
