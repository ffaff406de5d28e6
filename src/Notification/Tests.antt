-- ===== src/Notification/Tests.antt =====
-- Concrete runs of src/lib/notification/service.ts.
use adaptive_financial_os.Common.{◌≡◌, refl, text, none, [], ◌∷◌, map, All, true, text_beq}
use adaptive_financial_os.Notification.{
  in_app, email, unknown, info, NotificationPayload, NotificationResult, sent, failed, message,
  responded, NotificationConfig, Environment, Store, get_notification_config, user_of, send,
  send_channels, send_channel, send_in_app,
}
use adaptive_financial_os.Notification.Inbox.{Implements, in_app_copies, add_sent, send-Implements}
use adaptive_financial_os.Notification.Results.{IsResult, send-results}

-- No variable is set.
abbrev config : NotificationConfig
config = get_notification_config (λ name. none)

abbrev env : Environment
env = record {
  at = text "2026-01-01T00:00:00.000Z";
  now = λ n. text "1";
  fetch = λ n token chat p. responded true (text "200") (message none);
  writes = λ n. true;
}

abbrev payload : NotificationPayload
payload = record {
  user_id = none;
  kind = info;
  title = text "hello";
  title_fa = text "hello";
  body = [];
  body_fa = [];
  channels = in_app ∷ email ∷ unknown (text "fax") ∷ [];
}

abbrev empty : Store
empty = record { inbox = []; file = [] }

payload-sent :
    (send config env payload empty).0
    ≡ record { channel = in_app; report = sent (text "inapp-1"); at = env.at }
      ∷ record { channel = email; report = failed (text "Disabled"); at = env.at }
      ∷ record { channel = unknown (text "fax"); report = failed (text "Unknown fax"); at = env.at }
      ∷ []
unfolding send send_channels send_channel send_in_app get_notification_config text_beq
payload-sent = refl

send-Implements_example :
    Implements
      (add_sent
        (user_of payload)
        (in_app_copies config.in_app_enabled payload.channels payload)
        (λ user. []))
      (send config env payload empty).1.inbox
send-Implements_example = send-Implements config env payload (λ user. []) empty (λ user. refl)

send-results_example :
    (map (λ (r : NotificationResult). r.channel) (send config env payload empty).0
      ≡ payload.channels)
    × All (IsResult config env) (send config env payload empty).0
send-results_example = send-results config env payload empty
