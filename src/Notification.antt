-- ===== src/Notification.antt =====
-- src/lib/notification/service.ts and types.ts: `send`, `listInApp`, the inbox and its file. Of a
-- payload the fields `metadata`, `priority`, `amount` and `currency` are left out, which the
-- service only carries. What the clock, the file system and the Telegram server answer is the
-- environment's, by the number of results so far. No branch of the model throws, so that the outer
-- `catch` has none.
pub mod Inbox
pub mod Results
pub mod Tests
use adaptive_financial_os.Common.{
  ℕ, Text, text, is_empty, text_eq, Option, none, some, List, [], ◌∷◌, ◌++◌, length, Bool, true,
  false, not, ◌&&◌, ◌||◌, ltb, ◌==◌, if◌then◌else◌,
}
use adaptive_financial_os.Common.JsMap.{JsMap, get, set}

pub data NotificationChannel : Type 0 where
  in_app email sms telegram : NotificationChannel
  unknown : Text → NotificationChannel

pub data NotificationKind : Type 0 where
  transaction balance system error info : NotificationKind

pub record NotificationPayload : Type 0 where
  pub user_id : Option Text
  pub kind : NotificationKind
  pub title : Text
  pub title_fa : Text
  pub body : Text
  pub body_fa : Text
  pub channels : List NotificationChannel

-- `success` with its `messageId`, or not, with its `error`.
pub data Report : Type 0 where
  sent failed : Text → Report

pub record NotificationResult : Type 0 where
  pub channel : NotificationChannel
  pub report : Report
  pub at : Text

pub record NotificationConfig : Type 0 where
  pub in_app_enabled : Bool
  pub email_enabled : Bool
  pub email_provider : Text
  pub sms_enabled : Bool
  pub sms_provider : Text
  pub telegram_enabled : Bool
  pub bot_token : Option Text
  pub chat_id : Option Text

-- What `fetch` and `res.json()` come to: a response with `ok`, `status` and a body, whose message
-- id may be missing, or which is no JSON; or an exception.
pub data Body : Type 0 where
  message : Option Text → Body
  malformed : Text → Body

pub data Fetched : Type 0 where
  responded : Bool → Text → Body → Fetched
  thrown : Text → Fetched

pub record Environment : Type 0 where
  pub at : Text
  pub now : ℕ → Text
  pub fetch : ℕ → Text → Text → NotificationPayload → Fetched
  pub writes : ℕ → Bool

abbrev pub Inbox : Type 0
Inbox = JsMap Text (List NotificationPayload)

-- The map `inbox`, and what the file holds of it.
pub record Store : Type 0 where
  pub inbox : Inbox
  pub file : Inbox

-- `process.env.X || …` and `!x`: the empty string counts as missing.
abbrev pub or_else : Option Text → Text → Text
or_else none default = default
or_else (some s) default = if is_empty s then default else s

abbrev pub is_missing : Option Text → Bool
is_missing none = true
is_missing (some s) = is_empty s

abbrev pub is_variable : Text → Option Text → Bool
is_variable s none = false
is_variable s (some t) = t == s

-- `getNotificationConfig`, of the variables of the process.
unfoldable pub get_notification_config : (Text → Option Text) → NotificationConfig
get_notification_config variable = record {
  in_app_enabled = not (is_variable (text "false") (variable (text "NOTIF_IN_APP")));
  email_enabled =
      is_variable (text "yes") (variable (text "NOTIF_EMAIL"))
      || is_variable (text "true") (variable (text "NOTIF_EMAIL"));
  email_provider = or_else (variable (text "EMAIL_PROVIDER")) (text "mock");
  sms_enabled =
      is_variable (text "yes") (variable (text "NOTIF_SMS"))
      || is_variable (text "true") (variable (text "NOTIF_SMS"));
  sms_provider = or_else (variable (text "SMS_PROVIDER")) (text "mock");
  telegram_enabled =
      is_variable (text "yes") (variable (text "NOTIF_TELEGRAM"))
      || is_variable (text "true") (variable (text "NOTIF_TELEGRAM"));
  bot_token = variable (text "TELEGRAM_BOT_TOKEN");
  chat_id = variable (text "TELEGRAM_CHAT_ID");
}

abbrev pub max_inbox : ℕ
max_inbox = 50

-- `inbox.get(userId) || []`, which is also `listInApp`.
abbrev pub list_in_app : Text → Inbox → List NotificationPayload
list_in_app user inbox = elim (get user inbox) [ none ↦ [] | some list ↦ list ]

-- `list.shift()`
abbrev pub shift : {A : Type 0} → List A → List A
shift [] = []
shift (x ∷ xs) = xs

abbrev pub capped : {A : Type 0} → List A → List A
capped list = if ltb max_inbox (length list) then shift list else list

abbrev pub user_of : NotificationPayload → Text
user_of payload = or_else payload.user_id (text "system")

module _ (config : NotificationConfig) (env : Environment) where
  -- `saveInbox`
  abbrev pub save_inbox : ℕ → Inbox → Store → Store
  save_inbox n inbox store = record {
    inbox = inbox;
    file = if env.writes n then inbox else store.file;
  }

  unfoldable pub send_in_app : ℕ → NotificationPayload → Store → Report × Store
  send_in_app n payload store =
      if config.in_app_enabled
      then (
        sent (text "inapp-" ++ env.now n),
        save_inbox n
            (set (user_of payload)
              (capped (list_in_app (user_of payload) store.inbox ++ payload ∷ [])) store.inbox)
            store,
      )
      else (failed (text "Disabled"), store)

  -- `sendEmail` and `sendSms`, which differ in their names only.
  abbrev pub send_mock : Bool → Text → Text → ℕ → Report
  send_mock enabled provider name n =
      if enabled
      then (if provider == text "mock"
          then sent (text "mock-" ++ name ++ text "-" ++ env.now n)
          else sent (name ++ text "-" ++ env.now n))
      else failed (text "Disabled")

  abbrev pub from_body : ℕ → Body → Report
  from_body n (message (some id)) = sent id
  from_body n (message none) = sent (env.now n)
  from_body n (malformed e) = failed e

  abbrev pub from_fetched : ℕ → Fetched → Report
  from_fetched n (thrown e) = failed e
  from_fetched n (responded true status body) = from_body n body
  from_fetched n (responded false status body) = failed (text "Error: Telegram " ++ status)

  abbrev pub send_telegram : ℕ → NotificationPayload → Report
  send_telegram n payload =
      if config.telegram_enabled
      then (if is_missing config.bot_token || is_missing config.chat_id
          then failed (text "Not configured")
          else from_fetched n
              (env.fetch n (or_else config.bot_token []) (or_else config.chat_id []) payload))
      else failed (text "Disabled")

  -- The `switch`.
  unfoldable pub send_channel :
      ℕ → NotificationChannel → NotificationPayload → Store → Report × Store
  send_channel n in_app payload store = send_in_app n payload store
  send_channel n email payload store =
      (send_mock config.email_enabled config.email_provider (text "email") n, store)
  send_channel n sms payload store =
      (send_mock config.sms_enabled config.sms_provider (text "sms") n, store)
  send_channel n telegram payload store = (send_telegram n payload, store)
  send_channel n (unknown name) payload store = (failed (text "Unknown " ++ name), store)

  -- The loop over the channels.
  unfoldable pub send_channels :
      List NotificationChannel
      → List NotificationResult
      → NotificationPayload
      → Store
      → List NotificationResult × Store
  send_channels [] results payload store = (results, store)
  send_channels (channel ∷ channels) results payload store =
      let (report, store') = send_channel (length results) channel payload store in
      send_channels channels
        (results ++ record { channel = channel; report = report; at = env.at } ∷ []) payload store'

  unfoldable pub send : NotificationPayload → Store → List NotificationResult × Store
  send payload store = send_channels payload.channels [] payload store
