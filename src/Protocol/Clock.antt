-- ===== src/Protocol/Clock.antt =====
-- The tolerances for times: src/protocol/clock.ts, in milliseconds. The environment and the reading of a
-- number from a text are arguments: a text that is no finite number, or a negative one, reads as none.
use Prim.Native.String
use agentic_freight_venue.Common.{
  ℕ, ◌*◌, Option, none, some, String, string_eq, ◌==◌, if◌then◌else◌, ◌>>=◌,
}

pub record ClockPolicy : Type 0 where
  pub skew_ms : ℕ
  pub message_max_age_ms : ℕ
  pub operator_request_max_age_ms : ℕ
  pub rotation_grace_ms : ℕ
  pub registry_max_age_ms : ℕ
  pub witness_staleness_ms : ℕ

abbrev pub default_clock : ClockPolicy
default_clock = record {
  skew_ms = 60000;
  message_max_age_ms = 5 * 60000;
  operator_request_max_age_ms = 5 * 60000;
  rotation_grace_ms = 10 * 60000;
  registry_max_age_ms = 5 * 60000;
  witness_staleness_ms = 15 * 60000;
}

module _ (number : String → Option ℕ) (env : String → Option String) where
  -- A variable that is absent or empty leaves the default; one that cannot be read throws (`none`).
  unfoldable pub read_setting : String → ℕ → Option ℕ
  read_setting name default = elim (env name) [
    | none ↦ some default
    | some v ↦ if v == "" then some default else number v
  ]

  unfoldable pub clock_from_env : String → Option ClockPolicy
  clock_from_env prefix = do
    skew ← read_setting (String.◌++◌ prefix "CLOCK_SKEW_MS") default_clock.skew_ms
    message ← read_setting (String.◌++◌ prefix "MSG_MAX_AGE_MS") default_clock.message_max_age_ms
    operator ←
        read_setting (String.◌++◌ prefix "OPERATOR_REQUEST_MAX_AGE_MS")
          default_clock.operator_request_max_age_ms
    rotation ← read_setting (String.◌++◌ prefix "ROTATION_GRACE_MS") default_clock.rotation_grace_ms
    registry ←
        read_setting (String.◌++◌ prefix "REGISTRY_MAX_AGE_MS") default_clock.registry_max_age_ms
    witness ←
        read_setting (String.◌++◌ prefix "WITNESS_STALENESS_MS") default_clock.witness_staleness_ms
    some (record {
      skew_ms = skew;
      message_max_age_ms = message;
      operator_request_max_age_ms = operator;
      rotation_grace_ms = rotation;
      registry_max_age_ms = registry;
      witness_staleness_ms = witness;
    })
