-- ===== src/Orchestrator/Watch.antt =====
-- apps/web/lib/tx-orchestrator.ts, `watchTxStatus` and `startPollingFallback`: the stream of a
-- transaction's statuses, and the polling that takes its place. An event of the browser is an event
-- here; a stream that is closed and a timer that is cleared give none.
use soroban_dev_console.Shared.{
  ℕ, zero, suc, ◌+◌, ◌<◌, ◌≡◌, ◌⊎◌, inl, inr, refl, Bool, true, false, not, Option, none, some,
  List, [], ◌∷◌, if◌then◌else◌, arith, Bool-cases, ap, sym, ◌∙◌,
}

-- The status of an update, as far as it matters: `success` and `error` are terminal.
pub record Update : Type 0 where
  pub is_terminal : Bool
  pub number : ℕ

-- A status that is no success, an exception, an envelope without data, or an update.
pub data FetchReply : Type 0 where
  not_ok broken empty : FetchReply
  got : Update → FetchReply

-- `startPollingFallback`, from a round on and with so many attempts left: the updates that are handed
-- on and the number of requests.
unfoldable pub poll_fallback : (ℕ → FetchReply) → ℕ → ℕ → List Update × ℕ
poll_fallback replies zero round = ([], 0)
poll_fallback replies (suc left) round =
    let (updates, requests) = poll_fallback replies left (round + 1) in
    elim (replies round) [
      | not_ok ↦ ([], 1)
      | broken ↦ (updates, requests + 1)
      | empty ↦ (updates, requests + 1)
      | got u ↦ if u.is_terminal then (u ∷ [], 1) else (u ∷ updates, requests + 1)
    ]

pub record Watcher : Type 0 where
  pub resolved : Bool
  pub timer_runs : Bool
  pub stream_is_open : Bool
  pub fallbacks : ℕ
  pub fallback_runs : Bool

-- The watcher once the `EventSource` is made, and where its constructor has thrown.
abbrev pub watching : Watcher
watching = record {
  resolved = false;
  timer_runs = true;
  stream_is_open = true;
  fallbacks = 0;
  fallback_runs = false;
}

abbrev pub start_polling_fallback : Watcher → Watcher
start_polling_fallback w = record w { fallbacks = w.fallbacks + 1; fallback_runs = true }

abbrev pub unsupported : Watcher
unsupported =
    start_polling_fallback (record watching { timer_runs = false; stream_is_open = false })

unfoldable pub on_timeout : Watcher → Watcher
on_timeout w =
    let fired = record w { timer_runs = false } in
    if w.resolved
    then fired
    else start_polling_fallback (record fired { resolved = true; stream_is_open = false })

unfoldable pub on_open : Watcher → Watcher
on_open w = record w { timer_runs = false; resolved = true }

-- Nothing stands for data that is malformed or no success.
unfoldable pub on_message : Option Update → Watcher → Watcher
on_message none w = w
on_message (some u) w = if u.is_terminal then record w { stream_is_open = false } else w

unfoldable pub on_error : Watcher → Watcher
on_error w =
    if w.resolved
    then record w { stream_is_open = false }
    else start_polling_fallback
        (record w { resolved = true; timer_runs = false; stream_is_open = false })

unfoldable pub clean : Watcher → Watcher
clean w = record w { timer_runs = false; stream_is_open = false; fallback_runs = false }

-- What can happen next.
pub data Step : Watcher → Watcher → Type 0 where
  times_out : (w : Watcher) → w.timer_runs ≡ true → Step w (on_timeout w)
  opens : (w : Watcher) → w.stream_is_open ≡ true → Step w (on_open w)
  gets :
      (w : Watcher) (message : Option Update)
      → w.stream_is_open ≡ true
      → Step w (on_message message w)
  fails : (w : Watcher) → w.stream_is_open ≡ true → Step w (on_error w)
  cleans : (w : Watcher) → Step w (clean w)

pub data Reach : Watcher → Watcher → Type 0 where
  stays : (w : Watcher) → Reach w w
  goes : (u v w : Watcher) → Step u v → Reach v w → Reach u w

-- The fallback has not begun, or it has begun once and is the only source of updates.
abbrev pub HasOneSource : Watcher → Type 0
HasOneSource w =
    ((w.fallbacks ≡ 0) × (w.fallback_runs ≡ false))
    ⊎ ((w.fallbacks ≡ 1) × (w.stream_is_open ≡ false) × (w.timer_runs ≡ false))

Step-HasOneSource : (v w : Watcher) → Step v w → HasOneSource v → HasOneSource w
unfolding on_timeout on_open on_message on_error clean
Step-HasOneSource _ _ (times_out v armed) (inl (none_yet, quiet)) = elim (Bool-cases v.resolved) [
  | inl r ↦ inl (ground (arith, r, none_yet), ground (arith, r, quiet))
  | inr r ↦ inr (ground (arith, r, none_yet), ground (arith, r), ground (arith, r))
]
Step-HasOneSource _ _ (times_out v armed) (inr (once, closed, idle)) =
    absurd (ground (arith, armed, idle))
Step-HasOneSource _ _ (opens v opened) (inl (none_yet, quiet)) = inl (none_yet, quiet)
Step-HasOneSource _ _ (opens v opened) (inr (once, closed, idle)) =
    absurd (ground (arith, opened, closed))
Step-HasOneSource _ _ (gets v none opened) h = h
Step-HasOneSource _ _ (gets v (some u) opened) (inl (none_yet, quiet)) =
    inl (ground (arith, none_yet), ground (arith, quiet))
Step-HasOneSource _ _ (gets v (some u) opened) (inr (once, closed, idle)) =
    absurd (ground (arith, opened, closed))
Step-HasOneSource _ _ (fails v opened) (inl (none_yet, quiet)) = elim (Bool-cases v.resolved) [
  | inl r ↦ inl (ground (arith, r, none_yet), ground (arith, r, quiet))
  | inr r ↦ inr (ground (arith, r, none_yet), ground (arith, r), ground (arith, r))
]
Step-HasOneSource _ _ (fails v opened) (inr (once, closed, idle)) =
    absurd (ground (arith, opened, closed))
Step-HasOneSource _ _ (cleans v) (inl (none_yet, quiet)) = inl (none_yet, refl)
Step-HasOneSource _ _ (cleans v) (inr (once, closed, idle)) = inr (once, refl, refl)

-- However the events of a watcher follow one another, the polling that takes the stream's place is
-- started at most once, and only when the stream is closed and the timer is off.
pub Reach-HasOneSource : (v w : Watcher) → Reach v w → HasOneSource v → HasOneSource w
Reach-HasOneSource _ _ (stays w) h = h
Reach-HasOneSource _ _ (goes u v w step later) h =
    Reach-HasOneSource v w later (Step-HasOneSource u v step h)

-- No source of updates is left.
abbrev pub IsSilent : Watcher → Type 0
IsSilent w = (w.timer_runs ≡ false) × (w.stream_is_open ≡ false) × (w.fallback_runs ≡ false)

Step-IsSilent : (v w : Watcher) → Step v w → IsSilent v → IsSilent w
unfolding clean
Step-IsSilent _ _ (times_out v armed) (idle, closed, quiet) = absurd (ground (arith, armed, idle))
Step-IsSilent _ _ (opens v opened) (idle, closed, quiet) = absurd (ground (arith, opened, closed))
Step-IsSilent _ _ (gets v message opened) (idle, closed, quiet) =
    absurd (ground (arith, opened, closed))
Step-IsSilent _ _ (fails v opened) (idle, closed, quiet) = absurd (ground (arith, opened, closed))
Step-IsSilent _ _ (cleans v) h = (refl, refl, refl)

Reach-IsSilent : (v w : Watcher) → Reach v w → IsSilent v → IsSilent w
Reach-IsSilent _ _ (stays w) h = h
Reach-IsSilent _ _ (goes u v w step later) h = Reach-IsSilent v w later (Step-IsSilent u v step h)

-- A watcher whose stream has opened and then fails before a terminal status has no source of updates
-- left, whatever happens later: no polling takes the place of the stream.
pub on_error-IsSilent :
    (v w : Watcher)
    → HasOneSource v
    → v.stream_is_open ≡ true
    → Reach (on_error (on_open v)) w
    → IsSilent w
unfolding on_error on_open
on_error-IsSilent v w (inl (none_yet, quiet)) opened r = Reach-IsSilent _ w r (refl, refl, quiet)
on_error-IsSilent v w (inr (once, closed, idle)) opened r = absurd (ground (arith, opened, closed))

-- The reply lets the polling go on.
abbrev pub goes_on : FetchReply → Bool
goes_on not_ok = false
goes_on broken = true
goes_on empty = true
goes_on (got u) = not u.is_terminal

FetchReply-cases :
    (reply : FetchReply)
    → (reply ≡ not_ok) ⊎ ((reply ≡ broken) ⊎ ((reply ≡ empty) ⊎ ((u : Update) × (reply ≡ got u))))
FetchReply-cases not_ok = inl refl
FetchReply-cases broken = inr (inl refl)
FetchReply-cases empty = inr (inr (inl refl))
FetchReply-cases (got u) = inr (inr (inr (u, refl)))

module _ (replies : ℕ → FetchReply) (left round : ℕ) where
  one_request : goes_on (replies round) ≡ false → (poll_fallback replies (suc left) round).1 ≡ 1
  unfolding poll_fallback
  one_request h = elim (FetchReply-cases (replies round)) [
    | inl e ↦ ground (arith, e)
    | inr (inl e) ↦ absurd (ground (arith, e, h))
    | inr (inr (inl e)) ↦ absurd (ground (arith, e, h))
    | inr (inr (inr (u, e))) ↦ ground (arith, e, h)
  ]

  more_requests :
      goes_on (replies round) ≡ true
      → (poll_fallback replies (suc left) round).1 ≡ (poll_fallback replies left (round + 1)).1 + 1
  unfolding poll_fallback
  more_requests h = elim (FetchReply-cases (replies round)) [
    | inl e ↦ absurd (ground (arith, e, h))
    | inr (inl e) ↦ ground (arith, e)
    | inr (inr (inl e)) ↦ ground (arith, e)
    | inr (inr (inr (u, e))) ↦ ground (arith, e, h)
  ]

-- The polling asks until the first reply that is terminal or no success, and at most as often as it
-- may: after one such reply, no matter which, there is no further request.
pub poll_fallback-requests :
    (replies : ℕ → FetchReply) (left round k : ℕ)
    → k < left
    → ((i : ℕ) → i < k → goes_on (replies (round + i)) ≡ true)
    → goes_on (replies (round + k)) ≡ false
    → (poll_fallback replies left round).1 ≡ k + 1
unfolding poll_fallback
poll_fallback-requests replies zero round k h before now = absurd (omega (arith, h))
poll_fallback-requests replies (suc left) round zero h before now =
    let e : round + 0 ≡ round = omega arith in
    one_request replies left round (ap (λ i. goes_on (replies i)) (sym e) ∙ now)
poll_fallback-requests replies (suc left) round (suc k) h before now =
    let e : round + 0 ≡ round = omega arith in
    let step : (i : ℕ) → round + 1 + i ≡ round + suc i = λ i. omega arith in
    let later =
      poll_fallback-requests replies left (round + 1) k (omega (arith, h))
        (λ i low. ap (λ j. goes_on (replies j)) (step i) ∙ before (suc i) (omega (arith, low)))
        (ap (λ j. goes_on (replies j)) (step k) ∙ now) in
    more_requests replies left round
      (ap (λ i. goes_on (replies i)) (sym e) ∙ before 0 (omega arith))
    ∙ omega (arith, later)
