-- ===== src/Providers/RedisQueue.antt =====
-- class RedisIngestionQueue of knowledge_search/providers/redis_queue.py. `rq`, over a state of its
-- own, is a parameter.
use enterprise_knowledge_sea.Common.{ℕ, Bool, false, none, Text, codes, ◌++◌}
use enterprise_knowledge_sea.Errors.{
  Result, ok, err, redis_error, invalid_job_operation, no_such_job, queue_dispatch,
}

-- `queue.enqueue(WORKER_FUNCTION, str(id), job_id=key, ...)` with three retries, `cancel_job(key)`,
-- and `redis.ping()`.
pub record Client (Q : Type 0) : Type 0 where
  pub enqueue : Text → Text → Q → Result (Unit {0}) × Q
  pub cancel_job : Text → Q → Result (Unit {0}) × Q
  pub ping : Q → Result Bool
  pub uuid_text : ℕ → Text

module _ {Q : Type 0} (client : Client Q) where
  unfoldable pub job_key : ℕ → Text
  job_key job_id = codes "ingestion-" ++ client.uuid_text job_id

  unfoldable pub enqueue : ℕ → Q → Result (Unit {0}) × Q
  enqueue job_id queue =
      let (done, queue1) = client.enqueue (client.uuid_text job_id) (job_key job_id) queue in
      elim done [
        | ok _ ↦ (ok tt, queue1)
        | err redis_error ↦ (err (queue_dispatch none none), queue1)
        | err e ↦ (err e, queue1)
      ]

  unfoldable pub cancel : ℕ → Q → Result (Unit {0}) × Q
  cancel job_id queue =
      let (done, queue1) = client.cancel_job (job_key job_id) queue in
      elim done [
        | ok _ ↦ (ok tt, queue1)
        | err invalid_job_operation ↦ (ok tt, queue1)
        | err no_such_job ↦ (ok tt, queue1)
        | err redis_error ↦ (err (queue_dispatch none none), queue1)
        | err e ↦ (err e, queue1)
      ]

  unfoldable pub is_ready : Q → Result Bool
  is_ready queue = elim (client.ping queue) [
    | ok answer ↦ ok answer
    | err redis_error ↦ ok false
    | err e ↦ err e
  ]
