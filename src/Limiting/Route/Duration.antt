-- ===== src/Limiting/Route/Duration.antt =====
-- limiting/duration_limiter.py: the seconds of audio that a route transcribes in each window. The
-- reading of a WAV header by the module `wave` is a parameter: the frames and the frame rate, or
-- none where it raises.
pub mod Cap
use radicalbit_ai_gateway.Prelude.{ℕ, Option, none, some, List, ◌==◌, if◌then◌else◌}
use radicalbit_ai_gateway.Limiter.Machine.{Env}
use radicalbit_ai_gateway.Limiter.Storage.{Storage}
use radicalbit_ai_gateway.Limiter.Base.{WindowStats}
use radicalbit_ai_gateway.Limiting.Floats.{Floats}
use radicalbit_ai_gateway.Limiting.World.{
  RequestIdentity, LimitEventPayload, LimitError, audio_duration_limit_exceeded,
  audio_duration_limit, audio_duration_limiting, route, Exec, ◌>>◌, ◌>>=◌, skip,
}
use radicalbit_ai_gateway.Limiting.Room.{
  Caller, identity_of, Active, block_event, check_room, refuse,
}
use radicalbit_ai_gateway.Limiting.Event.{consume_and_emit_thresholds}
use radicalbit_ai_gateway.Limiting.Route.{RouteLimiter}

abbrev pub duration_event : RouteLimiter → Active → Caller → WindowStats → LimitEventPayload
duration_event self a caller stats =
    block_event audio_duration_limit route (identity_of caller self.route_name) a.item stats

abbrev pub duration_error : RouteLimiter → WindowStats → LimitError
duration_error self stats = audio_duration_limit_exceeded stats.remaining_time self.route_name

module _ (F : Floats) {Bytes : Type 0} (wave_header : Bytes → Option (ℕ × ℕ)) where
  open F use {Float, true_div, round}

  seconds_of : Option (ℕ × ℕ) → Option Float
  seconds_of none = none
  seconds_of (some (frames, rate)) = if rate == 0 then none else some (true_div frames rate)

  unfoldable pub estimate_audio_duration_seconds : Bytes → Option Float
  unfolding seconds_of
  estimate_audio_duration_seconds audio_bytes = seconds_of (wave_header audio_bytes)

  module _ {S : Type 0} (env : Env) (storage : Storage S)
      (alert_threshold_percentages : List ℕ) where
    check_and_count : RouteLimiter → Caller → Active → ℕ → Exec S (Unit {0})
    check_and_count self caller a cost =
        check_room env storage a cost (λ stats.
          refuse (duration_event self a caller stats) (some audio_duration_limiting) self.route_name
            (duration_error self stats))
        >> consume_and_emit_thresholds env storage alert_threshold_percentages a.limiter a.item cost
            route (identity_of caller self.route_name)

    by_estimate : RouteLimiter → Caller → Active → Option Float → Exec S (Unit {0})
    unfolding check_and_count
    by_estimate self caller a none = skip
    by_estimate self caller a (some duration_seconds) =
        check_and_count self caller a (round duration_seconds)

    by_active : RouteLimiter → Caller → Bytes → Option Active → Exec S (Unit {0})
    unfolding by_estimate
    by_active self caller audio_bytes none = skip
    by_active self caller audio_bytes (some a) =
        by_estimate self caller a (estimate_audio_duration_seconds audio_bytes)

    unfoldable pub check_and_count_duration : RouteLimiter → Caller → Bytes → Exec S (Unit {0})
    unfolding by_active
    check_and_count_duration self caller audio_bytes = by_active self caller audio_bytes self.active
