-- ===== src/Server/Closing.antt =====
-- What is closed when Run returns, and which requests still run then.
use boot_backend_go_clean.Common.{
  Bool, true, false, ◌||◌, Option, none, some, List, [], ◌∷◌, ◌≡◌, ◌≢◌, ◌⊎◌, inl, inr, refl,
  Bool-cases, arith, if◌then◌else◌,
}
use boot_backend_go_clean.Errors.{Error}
use boot_backend_go_clean.Server.Lifecycle.{
  Line, forced_to_shutdown, Phase, draining, returned, unstarted, State, start, shutdown, Move,
  refuse_proxies, accept, request, step, Reach, here, next,
}
use boot_backend_go_clean.Server.Channel.{
  Inv, Reach-Inv, has_ended, is_unstarted, is_graceful, has_error,
}

abbrev pub is_returned : Phase → Bool
is_returned (returned _) = true
is_returned _ = false

abbrev pub is_draining : Phase → Bool
is_draining draining = true
is_draining _ = false

abbrev is_forced : Line → Bool
is_forced (forced_to_shutdown e) = true
is_forced _ = false

-- The grace period has ended, or Shutdown has failed.
abbrev pub was_forced : List Line → Bool
was_forced [] = false
was_forced (line ∷ lines) = is_forced line || was_forced lines

record Closed (db : Bool) (s : State) : Type 0 where
  pub same_database : s.has_database ≡ db
  pub not_yet : is_returned s.phase ≡ false → s.closes ≡ 0
  pub once :
      is_returned s.phase ≡ true → is_unstarted s.server ≡ false → s.closes ≡ (if db then 1 else 0)
  pub refused : is_unstarted s.server ≡ true → s.closes ≡ 0
  pub over :
      is_returned s.phase ≡ true
      → is_unstarted s.server ≡ false
      → (s.stopping || has_ended s.server) ≡ true
  pub idle :
      is_graceful s.phase ≡ true
      → is_draining s.phase ≡ false
      → was_forced s.lines ≡ false
      → (s.in_flight ≡ 0) × (s.connections ≡ 0)

start-Closed : (db : Bool) → Closed db (start db)
start-Closed db = ground arith

step-Closed :
    {db : Bool} (m : Move) {s t : State} → step m s ≡ some t → Inv s → Closed db s → Closed db t
unfolding step shutdown
step-Closed (refuse_proxies e) h j i = ground arith
step-Closed m h j i = ground arith

Reach-Closed : {db : Bool} {s : State} → Reach (start db) s → Closed db s
Reach-Closed {db} here = start-Closed db
Reach-Closed (next r m h) = step-Closed m h (Reach-Inv r) (Reach-Closed r)

-- Once Run has started its server and has returned, whatever the order of events was, the database
-- of the application has been closed exactly once, where there is one, and no further connection is
-- accepted. No request is running any more, and no request can begin on a connection that is still
-- open, unless Run has returned an error or logged that the shutdown was forced.
pub returned_lem :
    {db : Bool} {s : State} (r : Option Error)
    → Reach (start db) s
    → s.phase ≡ returned r
    → s.server ≢ unstarted
    → (s.closes ≡ (if db then 1 else 0))
      × (step accept s ≡ none)
      × ((has_error r ≡ true)
          ⊎ (was_forced s.lines ≡ true)
          ⊎ ((s.in_flight ≡ 0) × (step request s ≡ none)))
unfolding step
returned_lem {s} none p e started =
    let i = Reach-Inv p in
    let c = Reach-Closed p in
    (
      ground arith,
      ground arith,
      elim (Bool-cases (was_forced s.lines)) [
        | inl f ↦ inr (inl f)
        | inr f ↦ inr (inr (ground arith, ground arith))
      ],
    )
returned_lem (some x) p e started =
    let i = Reach-Inv p in let c = Reach-Closed p in (ground arith, ground arith, inl refl)
