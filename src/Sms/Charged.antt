-- ===== src/Sms/Charged.antt =====
-- Which messages are sent, and what is reported of them (src/lib/sms/index.ts).
use adaptive_financial_os.Common.{
  ℕ, ◌≡◌, ◌≢◌, refl, Text, text, is_empty, Option, List, [], ◌∷◌, Bool, true, false, not, ◌&&◌,
  arith, ◌⊎◌, inl, inr, if◌then◌else◌,
}
use adaptive_financial_os.Sms.{
  SmsProviderId, ghasedak, kavenegar, melipayamak, mock, other_provider, AdapterResult, sent,
  failed, SmsSendResult, BalanceResult, balance, no_balance, TestResult, Request, send_request,
  info_request, Body, Fetched, responded, thrown, Environment, SmsService, is_200, from_send,
  from_info, ghasedak_send, kavenegar_send, ghasedak_info, kavenegar_info, send, test_connection,
}

-- What is paid for a message.
abbrev pub paid : AdapterResult → ℕ
paid (sent id cost) = cost
paid (failed e) = 0

-- The server has taken the message: the response is ok and its code is 200.
abbrev pub is_accepted : Fetched Body → Bool
is_accepted (thrown e) = false
is_accepted (responded ok status body) = ok && is_200 body.code

abbrev pub is_up : Fetched (Option ℕ) → Bool
is_up (thrown e) = false
is_up (responded ok status n) = ok

abbrev pub is_balance : BalanceResult → Bool
is_balance (balance n) = true
is_balance (no_balance e) = false

-- The price of a message, of the providers that have an adapter.
abbrev pub price : SmsProviderId → ℕ
price ghasedak = 120
price kavenegar = 110
price melipayamak = 0
price mock = 0
price (other_provider s) = 0

abbrev pub has_adapter : SmsProviderId → Bool
has_adapter ghasedak = true
has_adapter kavenegar = true
has_adapter melipayamak = false
has_adapter mock = false
has_adapter (other_provider s) = false

module _ (env : Environment) (service : SmsService) where
  -- One request to the provider, whose answer decides; or none, and a success of the mock.
  abbrev pub IsSent : Text → Text → SmsSendResult × List Request → Type 0
  IsSent to message (r, requests) =
      let request = send_request service.provider service.api_key service.sender to message in
      if has_adapter service.provider && not (is_empty service.api_key)
      then ((requests ≡ request ∷ [])
          × (r.provider ≡ service.provider)
          × (paid r.result
              ≡ (if is_accepted (env.fetch_send request) then price service.provider else 0)))
      else ((requests ≡ []) × (r.provider ≡ mock) × ((id : Text) × (r.result ≡ sent id 0)))

  abbrev pub IsTested : TestResult × List Request → Type 0
  IsTested (r, requests) =
      let request = info_request service.provider service.api_key in
      if has_adapter service.provider && not (is_empty service.api_key)
      then ((requests ≡ request ∷ [])
          × (r.provider ≡ service.provider)
          × (is_balance r.result ≡ is_up (env.fetch_info request)))
      else ((requests ≡ [])
          × (((r.result ≡ balance 0) × (r.provider ≡ mock))
              ⊎ ((r.result ≡ no_balance (text "Unknown provider")) × (service.provider ≢ mock))))

module _ (env : Environment) where
  from_send-paid :
      (cost : ℕ) (f : Fetched Body)
      → paid (from_send env cost f) ≡ (if is_accepted f then cost else 0)
  from_send-paid cost (thrown e) = refl
  from_send-paid cost (responded ok status body) = ground arith

  from_info-balance : (f : Fetched (Option ℕ)) → is_balance (from_info env f) ≡ is_up f
  from_info-balance (thrown e) = refl
  from_info-balance (responded true status n) = refl
  from_info-balance (responded false status n) = refl

  abbrev service_of : SmsProviderId → Text → Text → SmsService
  service_of p key sender = record { provider = p; api_key = key; sender = sender }

  send_by-IsSent :
      (p : SmsProviderId) (key sender to message : Text)
      → IsSent env
          (service_of p key sender)
          to
          message
          (send env (service_of p key sender) to message)
  unfolding send ghasedak_send kavenegar_send
  send_by-IsSent ghasedak [] sender to message = (refl, refl, (_, refl))
  send_by-IsSent kavenegar [] sender to message = (refl, refl, (_, refl))
  send_by-IsSent melipayamak [] sender to message = (refl, refl, (_, refl))
  send_by-IsSent mock [] sender to message = (refl, refl, (_, refl))
  send_by-IsSent (other_provider s) [] sender to message = (refl, refl, (_, refl))
  send_by-IsSent ghasedak (c ∷ key) sender to message = (
    refl,
    refl,
    from_send-paid 120 (env.fetch_send (send_request ghasedak (c ∷ key) sender to message)),
  )
  send_by-IsSent kavenegar (c ∷ key) sender to message = (
    refl,
    refl,
    from_send-paid 110 (env.fetch_send (send_request kavenegar (c ∷ key) sender to message)),
  )
  send_by-IsSent melipayamak (c ∷ key) sender to message = (refl, refl, (_, refl))
  send_by-IsSent mock (c ∷ key) sender to message = (refl, refl, (_, refl))
  send_by-IsSent (other_provider s) (c ∷ key) sender to message = (refl, refl, (_, refl))

  test_by-IsTested :
      (p : SmsProviderId) (key sender : Text)
      → IsTested env (service_of p key sender) (test_connection env (service_of p key sender))
  unfolding test_connection ghasedak_info kavenegar_info
  test_by-IsTested ghasedak [] sender = (refl, inl (refl, refl))
  test_by-IsTested kavenegar [] sender = (refl, inl (refl, refl))
  test_by-IsTested melipayamak [] sender = (refl, inl (refl, refl))
  test_by-IsTested mock [] sender = (refl, inl (refl, refl))
  test_by-IsTested (other_provider s) [] sender = (refl, inl (refl, refl))
  test_by-IsTested ghasedak (c ∷ key) sender = (refl, refl, from_info-balance _)
  test_by-IsTested kavenegar (c ∷ key) sender = (refl, refl, from_info-balance _)
  test_by-IsTested melipayamak (c ∷ key) sender = (refl, inr (refl, λ e. cc))
  test_by-IsTested mock (c ∷ key) sender = (refl, inl (refl, refl))
  test_by-IsTested (other_provider s) (c ∷ key) sender = (refl, inr (refl, λ e. cc))

  -- With a key and one of the two providers that have an adapter, `send` makes one request, with
  -- the service's key and sender, and `testConnection` one; the message costs the provider's price
  -- exactly if the response is ok and its code is 200, and nothing else, and the connection is
  -- reported to work exactly if the response is ok. Otherwise neither makes a request: `send`
  -- reports a success of the mock without a cost, and `testConnection` a balance of 0, or that it
  -- does not know the provider, which is then not the mock.
  pub send-IsSent :
      (service : SmsService) (to message : Text)
      → IsSent env service to message (send env service to message)
        × IsTested env service (test_connection env service)
  send-IsSent service to message = (
    send_by-IsSent service.provider service.api_key service.sender to message,
    test_by-IsTested service.provider service.api_key service.sender,
  )
