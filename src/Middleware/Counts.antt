-- ===== src/Middleware/Counts.antt =====
-- What the metrics of metrics_middleware.go count over many requests.
use boot_backend_go_clean.Common.{
  ℕ, suc, ◌+◌, ◌≡◌, ◌∙◌, refl, Bool, true, false, ◌||◌, List, [], ◌∷◌, arith,
}
use boot_backend_go_clean.Common.Int.{ℤ, ◌-ℤ◌}
use boot_backend_go_clean.Common.Lists.{length}
use boot_backend_go_clean.Common.Text.{Text, text_eq}
use boot_backend_go_clean.Effect.{Outcome, ok, Outcome-cases, was_ok, was_err, was_panic}
use boot_backend_go_clean.Validation.{is_empty}
use boot_backend_go_clean.Http.{GinContext, Handler}
use boot_backend_go_clean.Middleware.AccessLog.{Request}
use boot_backend_go_clean.Middleware.Metrics.{
  Labels, Metrics, inc, unknown_route, route_label, record_request, metrics_middleware,
}

-- A request that reaches the middleware: the instants, the rest of its chain and its context.
pub record Visit (S : Type 0) : Type 0 where
  pub request : Request
  pub start : ℤ
  pub finish : ℤ
  pub next : Handler S
  pub context : GinContext

abbrev pub total : List (Labels × ℕ) → ℕ
total [] = 0
total ((k, n) ∷ counts) = n + total counts

abbrev pub contains : Text → List Text → Bool
contains t [] = false
contains t (u ∷ us) = text_eq u t || contains t us

-- Every series has one of the paths.
abbrev pub AllWithin : List Text → List (Labels × ℕ) → Type 0
AllWithin paths [] = Unit
AllWithin paths ((k, n) ∷ counts) = (contains k.path paths ≡ true) × AllWithin paths counts

-- Every observation has one of the paths.
abbrev pub AllSeen : List Text → List ((Text × Text) × ℤ) → Type 0
AllSeen paths [] = Unit
AllSeen paths ((k, latency) ∷ observed) = (contains k.1 paths ≡ true) × AllSeen paths observed

abbrev completed : Outcome GinContext → ℕ
completed (ok c) = 1
completed _ = 0

module _ {S : Type 0} where
  abbrev pub visit : Visit S → Metrics × S → Outcome GinContext × (Metrics × S)
  visit v s = metrics_middleware v.request v.start v.finish v.next v.context s

  -- The requests one after the other.
  pub visits : List (Visit S) → Metrics × S → Metrics × S
  visits [] s = s
  visits (v ∷ vs) s = visits vs (visit v s).1

  -- How many of them the rest of the chain answers, and does not panic.
  pub answered : List (Visit S) → S → ℕ
  answered [] s = 0
  answered (v ∷ vs) s = completed (v.next v.context s).0 + answered vs (v.next v.context s).1

  -- c.FullPath() is a registered pattern, or empty where none matches.
  abbrev pub AllRouted : List Text → List (Visit S) → Type 0
  AllRouted routes [] = Unit
  AllRouted routes (v ∷ vs) =
      ((is_empty v.request.full_path || contains v.request.full_path routes) ≡ true)
      × AllRouted routes vs

total-inc :
    (labels : Labels) (counts : List (Labels × ℕ)) → total (inc labels counts) ≡ suc (total counts)
unfolding inc
total-inc labels [] = refl
total-inc labels ((k, n) ∷ counts) = ground (arith, total-inc labels counts)

inc-AllWithin :
    (paths : List Text) (labels : Labels) (counts : List (Labels × ℕ))
    → contains labels.path paths ≡ true
    → AllWithin paths counts
    → AllWithin paths (inc labels counts)
unfolding inc
inc-AllWithin paths labels [] h all = (h, tt)
inc-AllWithin paths labels ((k, n) ∷ counts) h all =
    ground (arith, inc-AllWithin paths labels counts)

abbrev pub no_metrics : Metrics
no_metrics = record { req_count = []; req_duration = [] }

record Inv (routes : List Text) (count : ℕ) (m : Metrics) : Type 0 where
  pub counted : total m.req_count ≡ count
  pub observed : length m.req_duration ≡ count
  pub known : AllWithin (unknown_route ∷ routes) m.req_count
  pub seen : AllSeen (unknown_route ∷ routes) m.req_duration

label-known :
    (routes : List Text) (full_path : Text)
    → (is_empty full_path || contains full_path routes) ≡ true
    → contains (route_label full_path) (unknown_route ∷ routes) ≡ true
unfolding text_eq
label-known routes [] h = refl
label-known routes (c ∷ s) h = ground arith

Inv-eq : (routes : List Text) (n k : ℕ) (m : Metrics) → n ≡ k → Inv routes n m → Inv routes k m
Inv-eq routes n k m e i = record {
  counted = i.counted ∙ e;
  observed = i.observed ∙ e;
  known = i.known;
  seen = i.seen;
}

record_request-Inv :
    (routes : List Text) (n : ℕ) (request : Request) (elapsed : ℤ) (c : GinContext) (m : Metrics)
    → (is_empty request.full_path || contains request.full_path routes) ≡ true
    → Inv routes n m
    → Inv routes (suc n) (record_request request elapsed c m)
unfolding record_request
record_request-Inv routes n request elapsed c m routed i = record {
  counted = omega (arith, total-inc _ m.req_count, i.counted);
  observed = omega (arith, i.observed);
  known =
      inc-AllWithin (unknown_route ∷ routes) _ m.req_count
        (label-known routes request.full_path routed) i.known;
  seen = (label-known routes request.full_path routed, i.seen);
}

module _ {S : Type 0} where
  visit-Inv :
      (routes : List Text) (n : ℕ) (v : Visit S) (m : Metrics) (s : S)
      → (is_empty v.request.full_path || contains v.request.full_path routes) ≡ true
      → Inv routes n m
      → Inv routes (n + completed (v.next v.context s).0) (visit v (m, s)).1.0
        × ((visit v (m, s)).1.1 ≡ (v.next v.context s).1)
  unfolding metrics_middleware
  visit-Inv routes n v m s routed i = elim (Outcome-cases (v.next v.context s).0) [
    | was_ok c e ↦ rw e (
      Inv-eq routes (suc n) _ _ (omega arith)
          (record_request-Inv routes n v.request (v.finish -ℤ v.start) c m routed i),
      refl,
    )
    | was_err x e ↦ rw e (Inv-eq routes n _ m (omega arith) i, refl)
    | was_panic p e ↦ rw e (Inv-eq routes n _ m (omega arith) i, refl)
  ]

  visits-Inv :
      (routes : List Text) (n : ℕ) (vs : List (Visit S)) (m : Metrics) (s : S)
      → AllRouted routes vs
      → Inv routes n m
      → Inv routes (n + answered vs s) (visits vs (m, s)).0
  unfolding visits answered
  visits-Inv routes n [] m s routed i = Inv-eq routes n _ m (omega arith) i
  visits-Inv routes n (v ∷ vs) m s (r, routed) i =
      let (j, e) = visit-Inv routes n v m s r i in
      Inv-eq routes _ _ _ (ground (arith, e)) (
        visits-Inv routes (n + completed (v.next v.context s).0) vs (visit v (m, s)).1.0
          (visit v (m, s)).1.1 routed j)

  -- After any number of requests, each of which gin has matched to one of the routes or to none,
  -- as many are counted as the rest of the chain has answered, and as many latencies observed: a
  -- request that panics is in neither. The label `path` of the counter and of the histogram is
  -- always one of the routes or UNKNOWN_ROUTE, whatever paths the clients ask for.
  pub visits_lem :
      (routes : List Text) (vs : List (Visit S)) (s : S)
      → AllRouted routes vs
      → (total (visits vs (no_metrics, s)).0.req_count ≡ answered vs s)
        × (length (visits vs (no_metrics, s)).0.req_duration ≡ answered vs s)
        × AllWithin (unknown_route ∷ routes) (visits vs (no_metrics, s)).0.req_count
        × AllSeen (unknown_route ∷ routes) (visits vs (no_metrics, s)).0.req_duration
  visits_lem routes vs s routed =
      let i =
        visits-Inv routes 0 vs no_metrics s routed
          (record { counted = refl; observed = refl; known = tt; seen = tt }) in
      (omega (arith, i.counted), omega (arith, i.observed), i.known, i.seen)
