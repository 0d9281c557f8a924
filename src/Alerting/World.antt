-- ===== src/Alerting/World.antt =====
-- The world in which the dispatcher acts: the machine of the alert store, the messages handed to the
-- SMTP server (services/email_service.py) and the records given to `emit_alert`
-- (events/alerts_processor.py), oldest first. An action that raises returns `none`, and what it did
-- before stays done.
use radicalbit_ai_gateway.Prelude.{
  ℕ, ◌+◌, Bool, false, Option, none, some, List, [], ◌∷◌, ◌++◌, Text, if◌then◌else◌,
}
use radicalbit_ai_gateway.Limiter.Machine.{Machine, Op}

-- The arguments of `build_alert_email_body`. The HTML around them is left out.
pub record Body : Type 0 where
  pub rule_name : Text
  pub description : Option Text
  pub scope : Text
  pub target : Text
  pub event : Text
  pub time : ℕ
  pub details : List (Text × Text)

pub record Mail : Type 0 where
  pub recipients : List Text
  pub subject : Text
  pub body : Body

pub data AlertStatus : Type 0 where
  sent failed : AlertStatus

-- What `emit_alert` records, without the identifier and the time that it adds.
pub record Alert : Type 0 where
  pub rule_uuid : Text
  pub rule_name : Text
  pub scope : Text
  pub project_uuid : Option Text
  pub route_name : Option Text
  pub credential_uuid : Option Text
  pub event : Text
  pub aggregation : Text
  pub status : AlertStatus
  pub count : ℕ
  pub window_start : Option ℕ
  pub window_end : Option ℕ

pub record World (S : Type 0) : Type 0 where
  pub machine : Machine S
  pub open machine use *
  pub mails : List Mail
  pub messages : ℕ
  pub alerts : List Alert

abbrev pub Act : Type 0 → Type 0 → Type 0
Act S A = World S → Option A × World S

abbrev pub continue : {S A B : Type 0} → Option A → (A → Act S B) → Act S B
continue (some a) f w = f a w
continue none f w = (none, w)

infixl 10 ◌>>=◌ ◌>>◌
abbrev pub ◌>>=◌ : {S A B : Type 0} → Act S A → (A → Act S B) → Act S B
◌>>=◌ m f w = let (r, w') = m w in continue r f w'

abbrev pub ◌>>◌ : {S B : Type 0} → Act S (Unit {0}) → Act S B → Act S B
m >> next = m >>= λ _. next

abbrev pub pure : {S A : Type 0} → A → Act S A
pure a w = (some a, w)

abbrev pub raise : {S A : Type 0} → Act S A
raise w = (none, w)

abbrev pub skip : {S : Type 0} → Act S (Unit {0})
skip = pure tt

abbrev pub lift : {S A : Type 0} → Op S A → Act S A
lift op w = let (a, m) = op w.machine in (some a, record w { machine = m })

-- `try: … except Exception: …` around an action without a result
unfoldable pub caught : {S : Type 0} → Act S (Unit {0}) → Act S (Unit {0})
caught act w = (some tt, (act w).1)

-- `EmailService.send_email`. Whether the SMTP server takes the n-th message is a parameter.
unfoldable pub send_email : {S : Type 0} → (ℕ → Bool) → List Text → Text → Body → Act S Bool
send_email delivers [] subject body w = (some false, w)
send_email delivers (r ∷ rs) subject body w =
    let mail : Mail = record { recipients = r ∷ rs; subject = subject; body = body } in
    (
      some (delivers w.messages),
      record w {
        messages = w.messages + 1;
        mails = if delivers w.messages then w.mails ++ (mail ∷ []) else w.mails;
      },
    )

abbrev pub emit_alert : {S : Type 0} → Alert → Act S (Unit {0})
emit_alert a w = (some tt, record w { alerts = w.alerts ++ (a ∷ []) })
