-- ===== src/Examples/Chain.antt =====
-- The chain of handlers around a request, and the start of the application, at concrete inputs.
use boot_backend_go_clean.Common.{◌≡◌, refl, true, String, none, some, List, [], ◌∷◌, ◌++◌}
use boot_backend_go_clean.Common.Int.{pos}
use boot_backend_go_clean.Common.Lists.{length}
use boot_backend_go_clean.Common.Text.{Text, codes, text_eq}
use boot_backend_go_clean.Effect.{Outcome, ok, err, panic, Action, pure}
use boot_backend_go_clean.Http.{GinContext, Handler, verbatim, json}
use boot_backend_go_clean.Validation.{to_lower}
use boot_backend_go_clean.Entity.{AccessTokenClaims}
use boot_backend_go_clean.Middleware.{warn_level, identified, bearer_token, split}
use boot_backend_go_clean.Middleware.AccessLog.{Request, LogCall, status}
use boot_backend_go_clean.Middleware.Metrics.{unknown_route}
use boot_backend_go_clean.Middleware.Observed.{
  Visit, IsRecovery, Answers, entry, traced_context, front, front_lem,
}
use boot_backend_go_clean.Middleware.Counts
use boot_backend_go_clean.Middleware.Counts.{
  total, visits, answered, no_metrics, AllWithin, AllSeen, visits_lem,
}
use boot_backend_go_clean.Logger.Context.{Context}
use boot_backend_go_clean.Route.{users, get_current_user, Handlers, chain}
use boot_backend_go_clean.Route.Protection.{without_header}
use boot_backend_go_clean.Server.Engine.{Limited, Libraries, Instants, serve}
use boot_backend_go_clean.Server.Engine.Layers.{IsPassing, IsLimited}
use boot_backend_go_clean.Server.Engine.Refusal.{IsRefusedWith, serve_refuses}
use boot_backend_go_clean.Server.Engine.Service.{enriched, IsAnswer, serve_answers}
use boot_backend_go_clean.Examples.Http.{incoming, anonymous, trusting, handlers, limiter}
use boot_backend_go_clean.Examples.Platform.{env}
use boot_backend_go_clean.Response.{new_error_response, new_success_response}

-- A recovery that writes a reply with the status 500.
abbrev recovered : {S : Type 0} → GinContext → Outcome GinContext × S → Outcome GinContext × S
recovered c (ok c', s) = (ok c', s)
recovered c (err e, s) = (err e, s)
recovered c (panic m, s) = (
  ok (record c {
    replies = record { code = 500; body = new_error_response "Internal Server Error" none } ∷ [];
  }),
  s,
)

abbrev recovery : {S : Type 0} → Handler S → Handler S
recovery next c s = recovered c (next c s)

recovers :
    {S : Type 0} (request : Request) (next : Handler S) (c : GinContext) (m : String) (s s' : S)
    → next c s ≡ (panic m, s')
    → (c' : GinContext) × (recovery next c s ≡ (ok c', s')) × (status request c' ≡ 500)
unfolding status
recovers request next c m s s' e = (
  record c {
    replies = record { code = 500; body = new_error_response "Internal Server Error" none } ∷ [];
  },
  rw e refl,
  refl,
)

recovery-IsRecovery : {S : Type 0} (request : Request) → IsRecovery {S = S} request recovery
recovery-IsRecovery request = record {
  passes = λ next c c' s s' e. rw e refl;
  recovers = recovers request;
}

abbrev me : Request
me = record {
  method = codes "GET";
  path = codes "/v1/api/users/current";
  raw_query = [];
  user_agent = codes "curl";
  full_path = codes "/v1/api/users/current";
}

-- A logger is the list of the identifiers that it carries.
abbrev seen : Visit (List Text)
seen = record {
  with_trace = λ id log. id ∷ log;
  log = [];
  request = me;
  start = pos 0;
  finish = pos 1500;
  size = λ c. 0;
  ctx = [];
}

abbrev named : GinContext
named = record anonymous { request_id_header = codes "abc" }

abbrev fixed_id : {S : Type 0} → Action S Text
fixed_id s = (ok (codes "1"), s)

abbrev crashing : Context (List Text) → Handler Unit
crashing ctx c s = (panic "index out of range", s)

front_lem_example :
    (c' : GinContext) × (s' : Unit) × (front seen recovery fixed_id crashing named ([], tt)
      ≡ (ok c', (entry seen c' ∷ [], s')))
    × Answers seen recovery fixed_id crashing c' s'
        (crashing (traced_context seen (codes "abc")) (identified (codes "abc") named) tt)
front_lem_example =
    front_lem seen recovery fixed_id crashing named [] tt (recovery-IsRecovery me) refl refl

abbrev lost : Request
lost = record me { path = codes "/wp-admin"; full_path = [] }

abbrev asked : Request → Handler Unit → Counts.Visit Unit
asked request next = record {
  request = request;
  start = pos 0;
  finish = pos 1500;
  next = next;
  context = incoming;
}

abbrev crash : Handler Unit
crash c s = (panic "index out of range", s)

abbrev traffic : List (Counts.Visit Unit)
traffic = asked me pure ∷ asked lost pure ∷ asked me crash ∷ []

abbrev patterns : List Text
patterns = codes "/v1/api/users/current" ∷ []

visits_lem_example :
    (total (visits traffic (no_metrics, tt)).0.req_count ≡ answered traffic tt)
    × (length (visits traffic (no_metrics, tt)).0.req_duration ≡ answered traffic tt)
    × AllWithin (unknown_route ∷ patterns) (visits traffic (no_metrics, tt)).0.req_count
    × AllSeen (unknown_route ∷ patterns) (visits traffic (no_metrics, tt)).0.req_duration
unfolding text_eq
visits_lem_example = visits_lem patterns traffic tt (refl, (refl, (refl, tt)))

abbrev libraries : Libraries Unit
libraries = record {
  recovery = recovery;
  timeout_new = λ t late next. next;
  cors_new = λ config next c. next (record c {
    headers = c.headers ++ ("Access-Control-Allow-Origin", verbatim (codes "*")) ∷ [];
  });
}

libraries-IsPassing : IsPassing libraries
libraries-IsPassing = record {
  in_time = λ t late next c c' s s' e. e;
  cors_headers = λ c. ("Access-Control-Allow-Origin", verbatim (codes "*")) ∷ [];
  with_headers = λ next c s. refl;
}

abbrev instants : Instants
instants = record {
  limit_now = pos 10;
  limit_later = pos 11;
  metrics_start = pos 12;
  metrics_finish = pos 900;
}

serve_refuses_example :
    (c' : GinContext) × (s' : Limited Unit) × (serve libraries env true instants seen fixed_id
        (λ ctx. chain trusting handlers (users get_current_user))
        named
        ([], (some limiter, (no_metrics, tt)))
      ≡ (ok c', (entry seen c' ∷ [], s')))
    × IsRefusedWith (IsLimited instants named.client_ip (some limiter)) (status me c')
    × (LogCall.level (entry seen c') ≡ warn_level)
serve_refuses_example =
    serve_refuses libraries env true instants seen fixed_id trusting handlers
      (users get_current_user) named [] (some limiter) no_metrics tt (recovery-IsRecovery me)
      libraries-IsPassing refl (without_header refl) refl refl

-- A handler that answers.
abbrev who_am_i : Handler Unit
unfolding new_success_response
who_am_i c = pure (json 200 (new_success_response "User found" none) c)

abbrev answering : Handlers Unit
answering = record handlers { get_current_user = who_am_i }

abbrev alice : AccessTokenClaims
alice = record { user_id = pos 7; username = codes "alice" }

abbrev signed_in : GinContext
signed_in = record incoming { request_id_header = codes "abc" }

token_of_signed_in : bearer_token signed_in.authorization ≡ some (codes "token")
unfolding bearer_token split to_lower text_eq
token_of_signed_in = refl

serve_answers_example :
    (c' : GinContext) × (s' : Limited Unit) × (serve libraries env true instants seen fixed_id
        (λ ctx. chain trusting answering (users get_current_user))
        signed_in
        ([], (none, (no_metrics, tt)))
      ≡ (ok c', (entry seen c' ∷ [], s')))
    × IsAnswer (IsLimited instants signed_in.client_ip none) who_am_i alice tt signed_in c'
unfolding who_am_i
serve_answers_example =
    serve_answers libraries env true instants seen fixed_id trusting answering
      (users get_current_user) who_am_i (codes "token")
      (alice, record { issued_at = pos 0; expires_at = pos 0; issuer = [] }) signed_in [] none
      no_metrics tt tt (recovery-IsRecovery me) libraries-IsPassing refl token_of_signed_in refl
      refl refl refl
      (λ hs. (
        json 200 (new_success_response "User found" none) (enriched alice hs signed_in),
        tt,
        refl,
        refl,
      ))
