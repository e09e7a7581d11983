-- ===== src/Webhooks/Tests.antt =====
-- apps/api/src/lib/webhook-delivery.service.ts: the results at concrete deliveries.
use soroban_dev_console.Shared.{ℕ, ◌≡◌, refl, String, true, none, some, [], ◌∷◌, arith}
use soroban_dev_console.Jobs.{Job, running, failed, pending, fail}
use soroban_dev_console.Webhooks.{
  Webhooks, Retry, responded, threw, send_http, deliver, retry_delivery, enqueue_retry, delay_after,
}
use soroban_dev_console.Webhooks.Doubling.{waiting, Carries, retry_delivery-doubles}

abbrev text_of : ℕ → String → String
text_of status body = body

abbrev retry : Retry
retry = record {
  delivery_id = "d1";
  target_url = "https://a.test";
  event = "share.created";
  resource_id = "s1";
  actor = "ann";
  timestamp = 5;
  attempt = 2;
}

abbrev job : Job
job = record {
  id = 7;
  kind = "webhook.retry";
  status = running;
  queue = "webhooks";
  priority = 10;
  attempts = 1;
  max_attempts = 5;
  last_error = none;
  scheduled_at = 0;
  locked_until = some 30000;
  completed_at = none;
  dead_letter_at = none;
  dead_letter_reason = none;
  updated_at = 0;
}

abbrev state : Webhooks
state = record { delivery_log = []; jobs = job ∷ []; payloads = (7, retry) ∷ []; exhausted = [] }

deliver_busy :
    (deliver text_of 100 "d2" 8
      (some "https://a.test")
      "e"
      "r"
      "ann"
      (responded 503 "busy")
      state).payloads
    ≡ (7, retry)
      ∷ (
        8,
        record {
          delivery_id = "d2";
          target_url = "https://a.test";
          event = "e";
          resource_id = "r";
          actor = "ann";
          timestamp = 100;
          attempt = 1;
        },
      )
      ∷ []
unfolding deliver send_http enqueue_retry
deliver_busy = refl

delay_after_two : delay_after 2 ≡ 900000
unfolding delay_after
delay_after_two = refl

retry_delivery-doubles_example :
    let (throws, t) = retry_delivery text_of 1000 8 retry (threw "timeout") state in
    let after = fail (λ x. x) 1001 7 "timeout" t.jobs in
    (throws ≡ true)
    × (waiting after ≡ 2)
    × Carries 7 failed retry after t.payloads
    × Carries 8 pending (record retry { attempt = 3 }) after t.payloads
unfolding send_http
retry_delivery-doubles_example =
    retry_delivery-doubles text_of 1000 1001 8 7 retry (threw "timeout") "timeout" state job refl
      (omega arith) refl refl (omega arith) refl refl refl
