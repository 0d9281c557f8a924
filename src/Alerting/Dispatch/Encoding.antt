-- ===== src/Alerting/Dispatch/Encoding.antt =====
-- alerting/alert_dispatch.py: `_Window.encode` and `decode`, and what `close_windows` does on a failure.
use radicalbit_ai_gateway.Prelude.{◌≡◌, refl, ap, ◌∙◌, some, List, [], ◌∷◌, Text, text_eq}
use radicalbit_ai_gateway.Limiter.Machine.{read_clock}
use radicalbit_ai_gateway.Alerting.Rules.{
  AlertRuleWindowSize, five_minutes, fifteen_minutes, one_hour, six_hours, one_day, lenient,
  window_sizes, size_value,
}
use radicalbit_ai_gateway.Alerting.World.{World, caught}
use radicalbit_ai_gateway.Alerting.Handlers.{
  Dispatcher, Window, Encoded, encode, decode, decoded, now,
}
use radicalbit_ai_gateway.Alerting.Dispatch.{close_all, close_windows}

lenient-size_value :
    (size : AlertRuleWindowSize) → lenient window_sizes (size_value size) ≡ some size
unfolding lenient window_sizes size_value text_eq
lenient-size_value five_minutes = refl
lenient-size_value fifteen_minutes = refl
lenient-size_value one_hour = refl
lenient-size_value six_hours = refl
lenient-size_value one_day = refl

module _ {S : Type 0} (d : Dispatcher S) where
  decoded-size :
      (w : Window)
      → decoded d (
          some (record {
            rule = w.rule_uuid;
            size = size_value w.size;
            start = w.start;
            target = w.target;
          }))
        ≡ some w
  unfolding decoded
  decoded-size w = rw (decoded, lenient-size_value w.size) refl

  -- A window is read back from its name.
  pub decode-encode :
      (json : (e : Encoded) → d.loads_window (d.dumps e) ≡ some e) (w : Window)
      → decode d (encode d w) ≡ some w
  unfolding decode encode
  decode-encode json w = ap (decoded d) (json _) ∙ decoded-size w

  close_all-returns : (members : List Text) (w : World S) → (close_all d members w).0 ≡ some tt
  unfolding close_all caught
  close_all-returns [] w = refl
  close_all-returns (member ∷ members) w = close_all-returns members _

  -- No failure to close one window stops the others.
  pub close_windows-returns : (w : World S) → (close_windows d w).0 ≡ some tt
  unfolding close_windows now
  close_windows-returns w =
      let w2 = (now d w).1 in
      let due = d.store.windows_due (read_clock d.env w.machine).0 w2.machine in
      close_all-returns due.0 (record w2 { machine = due.1 })
