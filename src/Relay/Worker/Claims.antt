-- ===== src/Relay/Worker/Claims.antt =====
-- Which events a poll claims (apps/outbox-relay/src/relay/outbox-relay.service.ts, `claim`).
use adaptive_financial_os.Common.{
  ℕ, ◌≤◌, ◌≡◌, refl, sym, subst, none, some, List, [], ◌∷◌, length, length-take, All, All-take,
  true, false, nat_beq, nat_eq, arith, ◌⊎◌, inl, inr, Bool-cases,
}
use adaptive_financial_os.Common.JsMap.{JsMap, get}
use adaptive_financial_os.Db.{EventRow, Status, pending, published, dead_letter}
use adaptive_financial_os.Db.Session.{Session, Outcome, value, throw}
use adaptive_financial_os.Db.Ensures.{Ends}
use adaptive_financial_os.Relay.Worker.{
  Config, Environment, Attempt, is_pending, member, backoff_ids, is_claimable, claimable, claim,
}
use adaptive_financial_os.Relay.Worker.Keeps.{Claims, Ends-claim}

-- No attempt of the event has failed, or the time of the next one has come.
abbrev IsDue : ℕ → ℕ → JsMap ℕ Attempt → Type 0
IsDue id now m =
    (get id m ≡ none) ⊎ ((a : Attempt) × (get id m ≡ some a) × (a.next_attempt_at ≤ now))

pub record IsClaimable (now : ℕ) (m : JsMap ℕ Attempt) (row : EventRow) : Type 0 where
  pub status : row.status ≡ pending
  pub unpublished : row.is_published ≡ false
  pub unprocessed : row.is_processed ≡ false
  pub due : IsDue row.id now m

IsDue-member :
    (id now : ℕ) (m : JsMap ℕ Attempt) → member id (backoff_ids now m) ≡ false → IsDue id now m
unfolding backoff_ids
IsDue-member id now [] h = inl refl
IsDue-member id now ((j, a) ∷ m) h = elim (Bool-cases (nat_beq j id)) [
  | inl e ↦ inr (a, ground (arith, e), ground (arith, e, h))
  | inr e ↦
      let rest : member id (backoff_ids now m) ≡ false = ground (arith, h) in
      let same : get id ((j, a) ∷ m) ≡ get id m = ground (arith, e) in
      subst (λ o. (o ≡ none) ⊎ ((b : Attempt) × (o ≡ some b) × (b.next_attempt_at ≤ now)))
        (sym same) (IsDue-member id now m rest)
]

is_pending-status : (s : Status) → is_pending s ≡ true → s ≡ pending
is_pending-status pending h = refl
is_pending-status published h = cc
is_pending-status dead_letter h = cc

claimable-All :
    (now : ℕ) (m : JsMap ℕ Attempt) (rows : List EventRow)
    → All (IsClaimable now m) (claimable (backoff_ids now m) rows)
unfolding claimable
claimable-All now m [] = tt
claimable-All now m (row ∷ rows) = elim (Bool-cases (is_claimable (backoff_ids now m) row)) [
  | inl e ↦ rw e (
    record {
      status = is_pending-status row.status (ground (arith, e));
      unpublished = ground (arith, e);
      unprocessed = ground (arith, e);
      due = IsDue-member row.id now m (ground (arith, e));
    },
    claimable-All now m rows,
  )
  | inr e ↦ rw e (claimable-All now m rows)
]

module _ (config : Config) (env : Environment) where
  -- Whatever statements fail, a claim commits nothing, and it returns at most as many events as the
  -- batch size, each of them pending, neither published nor processed, and due: with no failed
  -- attempt, or with the time of its next attempt not after now.
  pub claim-IsClaimable :
      (now : ℕ) (m : JsMap ℕ Attempt) (s : Session)
      → Ends
          (λ rows db.
            (db ≡ s.committed) × (length rows ≤ config.batch_size) × All (IsClaimable now m) rows)
          (λ db. db ≡ s.committed)
          (claim config env (backoff_ids now m) s)
  claim-IsClaimable now m s =
      claimed (claim config env (backoff_ids now m) s) (Ends-claim config env (backoff_ids now m) s)
    where
      claimed :
          (r : Outcome (List EventRow) × Session)
          → Ends (Claims config env s.committed (backoff_ids now m)) (λ db. db ≡ s.committed) r
          → Ends
              (λ rows db.
                (db ≡ s.committed)
                × (length rows ≤ config.batch_size)
                × All (IsClaimable now m) rows)
              (λ db. db ≡ s.committed)
              r
      claimed (throw e, t) h = h
      claimed (value rows, t) h =
          let all = claimable (backoff_ids now m) s.committed.outbox in
          let p =
            subst
              (λ (xs : List EventRow). (length xs ≤ config.batch_size) × All (IsClaimable now m) xs)
              (sym h.1)
              (
                length-take config.batch_size all,
                All-take _ config.batch_size all (claimable-All now m s.committed.outbox),
              ) in
          (h.0, p.0, p.1)
