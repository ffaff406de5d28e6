-- ===== src/Notification/Inbox.antt =====
-- The inbox holds the last notifications of each user (src/lib/notification/service.ts).
use mathlib.Core.List.{append_assoc, append-nil}
use adaptive_financial_os.Common.{
  ℕ, zero, suc, ◌-◌, ◌≤◌, ◌≡◌, refl, sym, ◌∙◌, ap, Text, text_eq, text_beq_iff, ◌==◌, Option, none,
  some, List, [], ◌∷◌, ◌++◌, length, length-append, drop, Bool, true, false, ltb, if◌then◌else◌,
  arith, Bool-cases, ◌⊎◌, inl, inr,
}
use adaptive_financial_os.Common.JsMap.{get, set, get-set}
use adaptive_financial_os.Notification.{
  NotificationChannel, in_app, email, sms, telegram, unknown, NotificationPayload,
  NotificationResult, NotificationConfig, Environment, Inbox, Store, max_inbox, list_in_app, shift,
  capped, user_of, send_in_app, send_channel, send_channels, send,
}

module _ {A : Type 0} where
  -- The last n elements.
  abbrev pub latest : ℕ → List A → List A
  latest n xs = drop (length xs - n) xs

  drop-append : (n : ℕ) (xs ys : List A) → n ≤ length xs → drop n (xs ++ ys) ≡ drop n xs ++ ys
  drop-append zero xs ys h = refl
  drop-append (suc n) [] ys h = absurd (omega (arith, h))
  drop-append (suc n) (x ∷ xs) ys h = drop-append n xs ys (omega (arith, h))

  length-drop : (n : ℕ) (xs : List A) → length (drop n xs) ≡ length xs - n
  length-drop zero xs = omega arith
  length-drop (suc n) [] = omega arith
  length-drop (suc n) (x ∷ xs) = omega (arith, length-drop n xs)

  shift-drop : (n : ℕ) (xs : List A) → shift (drop n xs) ≡ drop (suc n) xs
  shift-drop zero [] = refl
  shift-drop zero (x ∷ xs) = refl
  shift-drop (suc n) [] = refl
  shift-drop (suc n) (x ∷ xs) = shift-drop n xs

  capped-drop :
      (m : ℕ) (zs : List A)
      → length zs - m ≤ suc max_inbox
      → m ≤ length zs
      → (m ≡ 0) ⊎ (max_inbox ≤ length zs - suc m)
      → capped (drop m zs) ≡ drop (length zs - max_inbox) zs
  capped-drop m zs h k z = elim (Bool-cases (ltb max_inbox (length (drop m zs)))) [
    | inl over ↦
        let e : suc m ≡ length zs - max_inbox = ground (arith, over, h, k, length-drop m zs) in
        rw over (shift-drop m zs ∙ ap (λ n. drop n zs) e)
    | inr under ↦
        let e : m ≡ length zs - max_inbox = ground (arith, under, h, k, z, length-drop m zs) in
        rw under (ap (λ n. drop n zs) e)
  ]

  -- A new element after the last ones, of which the oldest goes if there are too many.
  capped-latest :
      (xs : List A) (x : A)
      → capped (latest max_inbox xs ++ x ∷ []) ≡ latest max_inbox (xs ++ x ∷ [])
  capped-latest xs x =
      let m = length xs - max_inbox in
      ap capped (sym (drop-append m xs (x ∷ []) (omega arith)))
      ∙ capped-drop m (xs ++ x ∷ []) (omega (arith, length-append xs (x ∷ [])))
          (omega (arith, length-append xs (x ∷ [])))
          (elim (Bool-cases (ltb max_inbox (length xs))) [
            | inl big ↦ inr (ground (arith, big, length-append xs (x ∷ [])))
            | inr small ↦ inl (ground (arith, small))
          ])

-- What has been sent to each user within the application, from the first to the last.
abbrev Sent : Type 0
Sent = Text → List NotificationPayload

-- The inbox holds the last of them.
abbrev pub Implements : Sent → Inbox → Type 0
Implements sent_to inbox = (user : Text) → list_in_app user inbox ≡ latest max_inbox (sent_to user)

-- One copy for each time that the payload names the channel, if it is enabled.
abbrev pub in_app_copies :
    Bool → List NotificationChannel → NotificationPayload → List NotificationPayload
in_app_copies enabled [] payload = []
in_app_copies enabled (in_app ∷ channels) payload =
    (if enabled then payload ∷ [] else []) ++ in_app_copies enabled channels payload
in_app_copies enabled (email ∷ channels) payload = in_app_copies enabled channels payload
in_app_copies enabled (sms ∷ channels) payload = in_app_copies enabled channels payload
in_app_copies enabled (telegram ∷ channels) payload = in_app_copies enabled channels payload
in_app_copies enabled (unknown name ∷ channels) payload = in_app_copies enabled channels payload

abbrev pub add_sent : Text → List NotificationPayload → Sent → Sent
add_sent user more sent_to other = if user == other then sent_to other ++ more else sent_to other

add_sent-nil : (user other : Text) (sent_to : Sent) → add_sent user [] sent_to other ≡ sent_to other
add_sent-nil user other sent_to = elim (Bool-cases (user == other)) [
  | inl e ↦ rw e (append-nil (sent_to other))
  | inr e ↦ rw e refl
]

add_sent-append :
    (user other : Text) (first more : List NotificationPayload) (sent_to : Sent)
    → add_sent user more (add_sent user first sent_to) other
      ≡ add_sent user (first ++ more) sent_to other
add_sent-append user other first more sent_to = elim (Bool-cases (user == other)) [
  | inl e ↦ rw e (append_assoc (sent_to other) first more)
  | inr e ↦ rw e refl
]

list_in_app-set :
    (user other : Text) (list : List NotificationPayload) (inbox : Inbox)
    → list_in_app other (set user list inbox)
      ≡ (if user == other then list else list_in_app other inbox)
list_in_app-set user other list inbox =
    ap (λ (o : Option (List NotificationPayload)). elim o [ none ↦ [] | some l ↦ l ])
      (get-set user other list inbox)
    ∙ elim (user == other)
        as (λ b.
          ◌≡◌ {A = List NotificationPayload}
            (elim (if b then some list else get other inbox) [ none ↦ [] | some l ↦ l ])
            (if b then list else list_in_app other inbox)) [ true ↦ refl | false ↦ refl ]

module _ (config : NotificationConfig) (env : Environment) where
  stored-Implements :
      (p : NotificationPayload) (sent_to : Sent) (inbox : Inbox)
      → Implements sent_to inbox
      → Implements
          (add_sent (user_of p) (p ∷ []) sent_to)
          (set (user_of p) (capped (list_in_app (user_of p) inbox ++ p ∷ [])) inbox)
  stored-Implements p sent_to inbox h other =
      list_in_app-set (user_of p) other _ inbox ∙ elim (Bool-cases (user_of p == other)) [
        | inl e ↦
            let same : user_of p ≡ other = (text_beq_iff (user_of p) other).0 e in
            rw e (
              ap (λ (xs : List NotificationPayload). capped (xs ++ p ∷ []))
                (ap (λ u. list_in_app u inbox) same ∙ h other)
              ∙ capped-latest (sent_to other) p)
        | inr e ↦ rw e (h other)
      ]

  send_in_app-Implements :
      (n : ℕ) (p : NotificationPayload) (sent_to : Sent) (store : Store)
      → Implements sent_to store.inbox
      → Implements
          (add_sent (user_of p) (if config.in_app_enabled then p ∷ [] else []) sent_to)
          (send_in_app config env n p store).1.inbox
  unfolding send_in_app
  send_in_app-Implements n p sent_to store h = elim (Bool-cases config.in_app_enabled) [
    | inl on ↦ rw on (stored-Implements p sent_to store.inbox h)
    | inr off ↦
        rw off
          (λ other. h other ∙ ap (latest max_inbox) (sym (add_sent-nil (user_of p) other sent_to)))
  ]

  send_channels-Implements :
      (channels : List NotificationChannel) (results : List NotificationResult)
      (p : NotificationPayload) (sent_to : Sent) (store : Store)
      → Implements sent_to store.inbox
      → Implements
          (add_sent (user_of p) (in_app_copies config.in_app_enabled channels p) sent_to)
          (send_channels config env channels results p store).1.inbox
  unfolding send_channels send_channel
  send_channels-Implements [] results p sent_to store h =
      λ other. h other ∙ ap (latest max_inbox) (sym (add_sent-nil (user_of p) other sent_to))
  send_channels-Implements (email ∷ channels) results p sent_to store h =
      send_channels-Implements channels _ p sent_to store h
  send_channels-Implements (sms ∷ channels) results p sent_to store h =
      send_channels-Implements channels _ p sent_to store h
  send_channels-Implements (telegram ∷ channels) results p sent_to store h =
      send_channels-Implements channels _ p sent_to store h
  send_channels-Implements (unknown name ∷ channels) results p sent_to store h =
      send_channels-Implements channels _ p sent_to store h
  send_channels-Implements (in_app ∷ channels) results p sent_to store h =
      let one = if config.in_app_enabled then p ∷ [] else [] in
      λ other.
        send_channels-Implements channels _ p (add_sent (user_of p) one sent_to)
          (send_in_app config env (length results) p store).1
          (send_in_app-Implements (length results) p sent_to store h) other
        ∙ ap (latest max_inbox) (
            add_sent-append (user_of p) other one (in_app_copies config.in_app_enabled channels p)
              sent_to)

  -- If the inbox holds the last 50 notifications of each user, it does so after any `send`: the
  -- payload's user, or `system` if it names none, has got one copy for each time that the payload
  -- names the channel, if that is enabled, and the oldest have gone; no other user's list changes.
  pub send-Implements :
      (p : NotificationPayload) (sent_to : Sent) (store : Store)
      → Implements sent_to store.inbox
      → Implements
          (add_sent (user_of p) (in_app_copies config.in_app_enabled p.channels p) sent_to)
          (send config env p store).1.inbox
  unfolding send
  send-Implements p sent_to store h = send_channels-Implements p.channels [] p sent_to store h
