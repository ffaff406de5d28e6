-- ===== src/Notification/Results.antt =====
-- What `send` answers (src/lib/notification/service.ts).
use mathlib.Core.List.{append_assoc, append-nil, map-append}
use adaptive_financial_os.Common.{
  ℕ, ◌≡◌, refl, sym, ◌∙◌, ap, List, [], ◌∷◌, ◌++◌, map, length, All, All-append, Bool, true, false,
  ◌||◌, text_eq, arith, Bool-cases, ◌⊎◌, inl, inr,
}
use adaptive_financial_os.Notification.{
  NotificationChannel, in_app, email, sms, telegram, unknown, NotificationPayload, Report, sent,
  failed, NotificationResult, NotificationConfig, Environment, Store, is_missing, send_in_app,
  send_telegram, send_channel, send_channels, send,
}

abbrev pub is_sent : Report → Bool
is_sent (sent id) = true
is_sent (failed e) = false

module _ (config : NotificationConfig) (env : Environment) where
  -- When a channel reports success.
  abbrev pub Answers : NotificationChannel → Bool → Type 0
  Answers in_app b = b ≡ config.in_app_enabled
  Answers email b = b ≡ config.email_enabled
  Answers sms b = b ≡ config.sms_enabled
  Answers telegram b =
      (b ≡ false)
      ⊎ ((config.telegram_enabled ≡ true)
          × (is_missing config.bot_token ≡ false)
          × (is_missing config.chat_id ≡ false))
  Answers (unknown name) b = b ≡ false

  abbrev pub IsResult : NotificationResult → Type 0
  IsResult r = Answers r.channel (is_sent r.report) × (r.at ≡ env.at)

  telegram-Answers :
      (n : ℕ) (p : NotificationPayload) → Answers telegram (is_sent (send_telegram config env n p))
  telegram-Answers n p = elim (Bool-cases config.telegram_enabled) [
    | inl on ↦ elim (Bool-cases (is_missing config.bot_token || is_missing config.chat_id)) [
      | inl missing ↦ inl (ground (arith, on, missing))
      | inr there ↦ inr (on, ground (arith, there), ground (arith, there))
    ]
    | inr off ↦ inl (ground (arith, off))
  ]

  send_channel-Answers :
      (n : ℕ) (channel : NotificationChannel) (p : NotificationPayload) (store : Store)
      → Answers channel (is_sent (send_channel config env n channel p store).0)
  unfolding send_channel send_in_app
  send_channel-Answers n in_app p store = ground arith
  send_channel-Answers n email p store = ground arith
  send_channel-Answers n sms p store = ground arith
  send_channel-Answers n telegram p store = telegram-Answers n p
  send_channel-Answers n (unknown name) p store = refl

  send_channels-results :
      (channels : List NotificationChannel) (results : List NotificationResult)
      (p : NotificationPayload) (store : Store)
      → All IsResult results
      → (map
            (λ (r : NotificationResult). r.channel)
            (send_channels config env channels results p store).0
          ≡ map (λ (r : NotificationResult). r.channel) results ++ channels)
        × All IsResult (send_channels config env channels results p store).0
  unfolding send_channels
  send_channels-results [] results p store h = (sym (append-nil _), h)
  send_channels-results (channel ∷ channels) results p store h =
      let step = send_channel config env (length results) channel p store in
      let new : NotificationResult = record { channel = channel; report = step.0; at = env.at } in
      let rest = send_channels-results channels (results ++ new ∷ []) p step.1 (
        All-append IsResult results (new ∷ []) h
          ((send_channel-Answers (length results) channel p store, refl), tt)) in
      (
        rest.0
            ∙ ap (λ cs. cs ++ channels)
                (map-append (λ (r : NotificationResult). r.channel) results (new ∷ []))
            ∙ append_assoc (map (λ (r : NotificationResult). r.channel) results) (channel ∷ [])
                channels,
        rest.1,
      )

  -- `send` answers with one result for each channel of the payload, in their order, all with one
  -- time. In the application, by e-mail and by SMS it reports success exactly if the channel is
  -- enabled; by Telegram only if that is enabled and has a token and a chat; and never for an
  -- unknown channel.
  pub send-results :
      (p : NotificationPayload) (store : Store)
      → (map (λ (r : NotificationResult). r.channel) (send config env p store).0 ≡ p.channels)
        × All IsResult (send config env p store).0
  unfolding send
  send-results p store = send_channels-results p.channels [] p store tt
