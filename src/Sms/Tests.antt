-- ===== src/Sms/Tests.antt =====
-- Concrete runs of src/lib/sms/index.ts.
use adaptive_financial_os.Common.{◌≡◌, refl, text, none, some, [], ◌∷◌, true}
use adaptive_financial_os.Sms.{
  ghasedak, sent, send_request, responded, Environment, SmsService, ghasedak_send, send,
  test_connection,
}
use adaptive_financial_os.Sms.Charged.{IsSent, IsTested, send-IsSent}

abbrev env : Environment
env = record {
  now = text "1";
  fetch_send = λ r.
      responded true (text "200")
        (record { code = some 200; message = none; id = some (text "7") });
  fetch_info = λ r. responded true (text "200") none;
}

abbrev service : SmsService
service = record { provider = ghasedak; api_key = text "key"; sender = text "3000" }

hello-sent : send env service (text "0912") (text "hello") ≡ (
  record { result = sent (text "7") 120; provider = ghasedak },
  send_request ghasedak (text "key") (text "3000") (text "0912") (text "hello") ∷ [],
)
unfolding send ghasedak_send
hello-sent = refl

send-IsSent_example :
    IsSent env service (text "0912") (text "hello") (send env service (text "0912") (text "hello"))
    × IsTested env service (test_connection env service)
send-IsSent_example = send-IsSent env service (text "0912") (text "hello")
