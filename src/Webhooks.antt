-- ===== src/Webhooks.antt =====
-- apps/api/src/lib/webhook-delivery.service.ts: the delivery of webhooks and its retries, over the
-- table of background jobs. The payloads of the jobs stand beside the table, by the job's id. What
-- `fetch` answers is an argument; `describe` is the text of an answer that is no success. Signatures
-- and log lines are left out.
pub mod Doubling
mod Tests
use soroban_dev_console.Shared.{
  ℕ, suc, ◌+◌, String, Bool, true, false, ◌&&◌, Option, none, some, List, [], ◌∷◌, ◌++◌, ltb, leb,
  ◌==◌, if◌then◌else◌, length, take, get_elem?, str_eq, find,
}
use soroban_dev_console.Jobs.{Table, EnqueueJobOptions, enqueue}

abbrev pub retry_delays_ms : List ℕ
retry_delays_ms = 60000 ∷ 300000 ∷ 900000 ∷ 3600000 ∷ 14400000 ∷ []

abbrev pub max_attempts : ℕ
max_attempts = 5

abbrev pub max_log_size : ℕ
max_log_size = 500

pub record WebhookDeliveryRecord : Type 0 where
  pub id : String
  pub target_url : String
  pub event : String
  pub resource_id : String
  pub actor : String
  pub timestamp : ℕ
  pub status_code : Option ℕ
  pub last_error : Option String
  pub delivered_at : Option ℕ
  pub attempts : ℕ

-- The payload of a job of the type `webhook.retry`.
pub record Retry : Type 0 where
  pub delivery_id : String
  pub target_url : String
  pub event : String
  pub resource_id : String
  pub actor : String
  pub timestamp : ℕ
  pub attempt : ℕ

pub record Webhooks : Type 0 where
  pub delivery_log : List WebhookDeliveryRecord
  pub jobs : Table
  pub payloads : List (ℕ × Retry)
  pub exhausted : List String

-- What `fetch` gives: a status and a body, or an exception.
pub data HttpReply : Type 0 where
  responded : ℕ → String → HttpReply
  threw : String → HttpReply

-- `unshift` and, past the limit, `splice`.
unfoldable pub add_to_log :
    WebhookDeliveryRecord → List WebhookDeliveryRecord → List WebhookDeliveryRecord
add_to_log r log = take max_log_size (r ∷ log)

-- `RETRY_DELAYS_MS[attempt] ?? RETRY_DELAYS_MS[RETRY_DELAYS_MS.length - 1]`
unfoldable pub delay_after : ℕ → ℕ
delay_after attempt = elim (get_elem? retry_delays_ms attempt) [ none ↦ 14400000 | some d ↦ d ]

abbrev pub retry_options : ℕ → EnqueueJobOptions
retry_options scheduled_at = record {
  kind = "webhook.retry";
  max_attempts = some max_attempts;
  scheduled_at = some scheduled_at;
  queue = some "webhooks";
  priority = some 10;
}

-- The id is the one that the database gives to the job.
unfoldable pub enqueue_retry : ℕ → ℕ → ℕ → Retry → Webhooks → Webhooks
enqueue_retry now id delay retry w = record w {
  jobs = enqueue now id (retry_options (now + delay)) w.jobs;
  payloads = w.payloads ++ (id, retry) ∷ [];
}

-- `existing`, the first record of the delivery, is changed in place.
unfoldable pub update_log :
    String
    → (WebhookDeliveryRecord → WebhookDeliveryRecord)
    → List WebhookDeliveryRecord
    → List WebhookDeliveryRecord
update_log id f [] = []
update_log id f (r ∷ log) = if str_eq r.id id then f r ∷ log else r ∷ update_log id f log

module _ (describe : ℕ → String → String) where
  -- `sendHttp`: the status, or the message with which it throws.
  unfoldable pub send_http : HttpReply → Option ℕ × String
  send_http (responded status body) =
      if leb 200 status && ltb status 300 then (some status, "") else (none, describe status body)
  send_http (threw message) = (none, message)

  -- `deliver`, with the ids of the delivery and of the job that may be needed.
  unfoldable pub deliver :
      ℕ → String → ℕ → Option String → String → String → String → HttpReply → Webhooks → Webhooks
  deliver now delivery_id job_id none event resource_id actor reply w = w
  deliver now delivery_id job_id (some url) event resource_id actor reply w =
      let (status, message) = send_http reply in
      let fresh : WebhookDeliveryRecord = record {
        id = delivery_id;
        target_url = url;
        event = event;
        resource_id = resource_id;
        actor = actor;
        timestamp = now;
        status_code = none;
        last_error = none;
        delivered_at = none;
        attempts = 1;
      } in
      let retry : Retry = record {
        delivery_id = delivery_id;
        target_url = url;
        event = event;
        resource_id = resource_id;
        actor = actor;
        timestamp = now;
        attempt = 1;
      } in
      if str_eq url "" then w else elim status [
        | some code ↦ record w {
          delivery_log =
              add_to_log (record fresh { status_code = some code; delivered_at = some now })
                w.delivery_log;
        }
        | none ↦ enqueue_retry now job_id 60000 retry (record w {
          delivery_log = add_to_log (record fresh { last_error = some message }) w.delivery_log;
        })
      ]

  -- `retryDelivery`: whether it throws, and the new state.
  unfoldable pub retry_delivery : ℕ → ℕ → Retry → HttpReply → Webhooks → Bool × Webhooks
  retry_delivery now job_id r reply w =
      let (status, message) = send_http reply in
      let log = update_log r.delivery_id (λ d. record d { attempts = r.attempt }) w.delivery_log in
      let failed = record w {
        delivery_log = update_log r.delivery_id (λ d. record d { last_error = some message }) log;
      } in
      elim status [
        | some code ↦ (
          false,
          record w {
            delivery_log =
                update_log r.delivery_id
                  (λ d. record d {
                    status_code = some code;
                    delivered_at = some now;
                    last_error = none;
                  })
                  log;
          },
        )
        | none ↦
            if leb max_attempts r.attempt
            then (true, record failed { exhausted = w.exhausted ++ r.delivery_id ∷ [] })
            else (
              true,
              enqueue_retry now job_id (delay_after r.attempt)
                  (record r { attempt = r.attempt + 1 }) failed,
            )
      ]

  unfoldable pub get_deliveries : ℕ → Webhooks → List WebhookDeliveryRecord
  get_deliveries limit w =
      take (if ltb limit max_log_size then limit else max_log_size) w.delivery_log
