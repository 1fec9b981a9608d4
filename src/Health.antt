-- ===== src/Health.antt =====
-- src/health/health.controller.ts: GET /readyz.
use kisauth.Base.{Bool, String, ◌&&◌, if◌then◌else◌}

pub data CheckResult : Type 0 where
  ok error : CheckResult

pub record Readiness : Type 0 where
  pub status : String
  pub database : CheckResult
  pub redis : CheckResult

abbrev pub result_of : Bool → CheckResult
result_of done = if done then ok else error

-- The arguments: whether `pool.query`, `redis.connect` and `redis.ping` come through without an
-- exception. The connections are closed on either branch.
unfoldable pub readiness : (queried connected pinged : Bool) → Readiness
readiness queried connected pinged =
    let reached = connected && pinged in
    record {
      status = if queried && reached then "ok" else "degraded";
      database = result_of queried;
      redis = result_of reached;
    }
