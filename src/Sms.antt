-- ===== src/Sms.antt =====
-- src/lib/sms: the service of index.ts and its two adapters, ghasedak.adapter.ts and
-- kavenegar.adapter.ts. A balance is a whole number. A call answers with its result and the
-- requests that it has made. What a server answers is the environment's: whether the response is
-- `ok`, its status, and what the adapter reads of the body; or an exception of the request, of the
-- body's JSON or of its reading.
pub mod Charged
pub mod Tests
use adaptive_financial_os.Common.{
  ℕ, Text, text, text_eq, is_empty, Option, none, some, List, [], ◌∷◌, ◌++◌, Bool, true, false, not,
  ◌&&◌, ◌||◌, nat_beq, ◌==◌, if◌then◌else◌,
}

pub data SmsProviderId : Type 0 where
  ghasedak kavenegar melipayamak mock : SmsProviderId
  other_provider : Text → SmsProviderId

-- `success` with its `messageId` and `cost`, or not, with its `error`.
pub data AdapterResult : Type 0 where
  sent : Text → ℕ → AdapterResult
  failed : Text → AdapterResult

pub record SmsSendResult : Type 0 where
  pub result : AdapterResult
  pub provider : SmsProviderId

-- The same of `testConnection`, with the balance.
pub data BalanceResult : Type 0 where
  balance : ℕ → BalanceResult
  no_balance : Text → BalanceResult

pub record TestResult : Type 0 where
  pub result : BalanceResult
  pub provider : SmsProviderId

-- The requests of both adapters, with the key, and for a message the sender, the receptor and the
-- text.
pub data Request : Type 0 where
  send_request : SmsProviderId → Text → Text → Text → Text → Request
  info_request : SmsProviderId → Text → Request

-- What an adapter reads of a body: the code, the message and the id of the first item.
pub record Body : Type 0 where
  pub code : Option ℕ
  pub message : Option Text
  pub id : Option Text

pub data Fetched {ℓ} (A : Type ℓ) : Type ℓ where
  responded : Bool → Text → A → Fetched A
  thrown : Text → Fetched A

pub record Environment : Type 0 where
  pub now : Text
  pub fetch_send : Request → Fetched Body
  pub fetch_info : Request → Fetched (Option ℕ)

-- The fields of `SmsService`.
pub record SmsService : Type 0 where
  pub provider : SmsProviderId
  pub api_key : Text
  pub sender : Text

-- `a || b`, of texts that may be missing or empty.
abbrev pub or_text : Option Text → Text → Text
or_text none other = other
or_text (some s) other = if is_empty s then other else s

abbrev pub is_200 : Option ℕ → Bool
is_200 none = false
is_200 (some n) = nat_beq n 200

abbrev pub or_zero : Option ℕ → ℕ
or_zero none = 0
or_zero (some n) = n

abbrev pub provider_of : Text → SmsProviderId
provider_of s =
    if s == text "ghasedak"
    then ghasedak
    else if s == text "kavenegar"
    then kavenegar
    else if s == text "melipayamak"
    then melipayamak
    else if s == text "mock"
    then mock
    else other_provider s

-- The constructor, of the variables of the process.
unfoldable pub sms_service : (Text → Option Text) → SmsService
sms_service variable = record {
  provider = provider_of (or_text (variable (text "SMS_PROVIDER")) (text "mock"));
  api_key = or_text (variable (text "SMS_API_KEY")) (
      or_text (variable (text "GHASEDAK_API_KEY"))
        (or_text (variable (text "KAVENEGAR_API_KEY")) []));
  sender = or_text (variable (text "SMS_SENDER")) [];
}

module _ (env : Environment) where
  -- What an adapter makes of the answer to a message, which has its cost.
  abbrev pub from_send : ℕ → Fetched Body → AdapterResult
  from_send cost (thrown e) = failed e
  from_send cost (responded ok status body) =
      if not ok || not (is_200 body.code)
      then failed (or_text body.message (text "HTTP " ++ status))
      else sent (or_text body.id env.now) cost

  abbrev pub from_info : Fetched (Option ℕ) → BalanceResult
  from_info (thrown e) = no_balance e
  from_info (responded true status n) = balance (or_zero n)
  from_info (responded false status n) = no_balance (text "HTTP " ++ status)

  -- `send` and `getBalance` of the two adapters, with the name that the service adds.
  unfoldable pub ghasedak_send : SmsService → Text → Text → SmsSendResult × List Request
  ghasedak_send service to message =
      let request = send_request ghasedak service.api_key service.sender to message in
      (
        record { result = from_send 120 (env.fetch_send request); provider = ghasedak },
        request ∷ [],
      )

  unfoldable pub kavenegar_send : SmsService → Text → Text → SmsSendResult × List Request
  kavenegar_send service to message =
      let request = send_request kavenegar service.api_key service.sender to message in
      (
        record { result = from_send 110 (env.fetch_send request); provider = kavenegar },
        request ∷ [],
      )

  unfoldable pub ghasedak_info : SmsService → TestResult × List Request
  ghasedak_info service =
      let request = info_request ghasedak service.api_key in
      (record { result = from_info (env.fetch_info request); provider = ghasedak }, request ∷ [])

  unfoldable pub kavenegar_info : SmsService → TestResult × List Request
  kavenegar_info service =
      let request = info_request kavenegar service.api_key in
      (record { result = from_info (env.fetch_info request); provider = kavenegar }, request ∷ [])

  -- `mock-…` and `mock-fallback-…`, which only log.
  abbrev pub mock_send : Text → SmsSendResult × List Request
  mock_send prefix = (record { result = sent (prefix ++ env.now) 0; provider = mock }, [])

  -- What `send` does with a key, by the provider.
  abbrev pub dispatch_send : SmsProviderId → SmsService → Text → Text → SmsSendResult × List Request
  dispatch_send ghasedak service to message = ghasedak_send service to message
  dispatch_send kavenegar service to message = kavenegar_send service to message
  dispatch_send mock service to message = mock_send (text "mock-")
  dispatch_send melipayamak service to message = mock_send (text "mock-fallback-")
  dispatch_send (other_provider s) service to message = mock_send (text "mock-fallback-")

  unfoldable pub send : SmsService → Text → Text → SmsSendResult × List Request
  send service to message =
      if is_empty service.api_key
      then mock_send (text "mock-")
      else dispatch_send service.provider service to message

  abbrev pub mock_test : TestResult × List Request
  mock_test = (record { result = balance 0; provider = mock }, [])

  abbrev pub unknown_test : SmsProviderId → TestResult × List Request
  unknown_test provider =
      (record { result = no_balance (text "Unknown provider"); provider = provider }, [])

  abbrev pub dispatch_test : SmsProviderId → SmsService → TestResult × List Request
  dispatch_test ghasedak service = ghasedak_info service
  dispatch_test kavenegar service = kavenegar_info service
  dispatch_test mock service = mock_test
  dispatch_test melipayamak service = unknown_test melipayamak
  dispatch_test (other_provider s) service = unknown_test (other_provider s)

  unfoldable pub test_connection : SmsService → TestResult × List Request
  test_connection service =
      if is_empty service.api_key then mock_test else dispatch_test service.provider service
