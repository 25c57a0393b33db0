-- ===== src/Cli/DlqRedrive/Counts.antt =====
-- The counts that a redrive of dead letters reports.
use message_management_api.Prelude.{
  ℕ, suc, ◌+◌, ◌≤◌, inl, inr, leb, List, [], ◌∷◌, Bool-cases, arith,
}
use message_management_api.Effects.{Result, ok, err}
use message_management_api.Cli.DlqRedrive.{
  DlqRedriveInput, StopReason, idle_timeout, limit_reached, DeadLetter, Clients, Progress,
  check_limit, after_commit, after_send, handle_payload, Event, delivers, idles, rejects, Finish,
  consume_until_done,
}

-- The dead letters among the events.
abbrev pub deliveries : List Event → ℕ
deliveries [] = 0
deliveries (delivers m ∷ events) = suc (deliveries events)
deliveries (idles ∷ events) = deliveries events
deliveries (rejects e ∷ events) = deliveries events

-- A stop for the limit has handled that many messages, and a message counts as consumed before it
-- counts as sent, and as sent before it counts as committed.
abbrev pub ReasonHolds : ℕ → StopReason → ℕ → Type 0
ReasonHolds limit idle_timeout n = Unit {0}
ReasonHolds limit limit_reached n = limit ≤ n

abbrev pub IsCounted : DlqRedriveInput → Progress → Type 0
IsCounted input s =
    (s.committed_count ≤ s.republished_count)
    × (s.republished_count ≤ s.consumed_count)
    × ReasonHolds input.limit s.stop_reason s.consumed_count

ReasonHolds-suc :
    (limit : ℕ) (reason : StopReason) (n : ℕ)
    → ReasonHolds limit reason n
    → ReasonHolds limit reason (n + 1)
ReasonHolds-suc limit idle_timeout n h = tt
ReasonHolds-suc limit limit_reached n h = omega (arith, h)

module _ {W : Type 0} (clients : Clients W) (input : DlqRedriveInput) where
  check_limit-IsCounted :
      (s : Progress) (w : W) → IsCounted input s → IsCounted input (check_limit input s w).0.1
  unfolding check_limit
  check_limit-IsCounted s w (a, b, c) = elim (Bool-cases (leb input.limit s.consumed_count)) [
    | inl e ↦ rw e (a, b, ground (arith, e))
    | inr e ↦ rw e (a, b, c)
  ]

  after_commit-IsCounted :
      (result : Result (Unit {0})) (s : Progress) (w : W)
      → (suc s.committed_count ≤ s.republished_count)
        × (s.republished_count ≤ s.consumed_count)
        × ReasonHolds input.limit s.stop_reason s.consumed_count
      → IsCounted input (after_commit clients input result s w).0.1
  unfolding after_commit
  after_commit-IsCounted (err e) s w (a, b, c) = (omega (arith, a), b, c)
  after_commit-IsCounted (ok done) s w (a, b, c) =
      check_limit-IsCounted (record s { committed_count = s.committed_count + 1 }) w
        (omega (arith, a), b, c)

  after_send-IsCounted :
      (m : DeadLetter) (result : Result (Unit {0})) (s : Progress) (w : W)
      → (s.committed_count ≤ s.republished_count)
        × (suc s.republished_count ≤ s.consumed_count)
        × ReasonHolds input.limit s.stop_reason s.consumed_count
      → IsCounted input (after_send clients input m result s w).0.1
  unfolding after_send
  after_send-IsCounted m (err e) s w (a, b, c) = (a, omega (arith, b), c)
  after_send-IsCounted m (ok done) s w (a, b, c) =
      after_commit-IsCounted _ (record s { republished_count = s.republished_count + 1 }) _
        (omega (arith, a), omega (arith, b), c)

  handle_payload-IsCounted :
      (m : DeadLetter) (s : Progress) (w : W)
      → IsCounted input s
      → IsCounted input (handle_payload clients input m s w).0.1
  unfolding handle_payload
  handle_payload-IsCounted m s w (a, b, c) =
      let counted : Progress = record s { consumed_count = s.consumed_count + 1 } in
      let kept = ReasonHolds-suc input.limit s.stop_reason s.consumed_count c in
      elim (Bool-cases input.dry_run) [
        | inl dry ↦ rw dry (check_limit-IsCounted counted w (a, omega (arith, b), kept))
        | inr wet ↦ rw wet (after_send-IsCounted m _ counted _ (a, omega (arith, b), kept))
      ]

  pub run-IsCounted :
      (events : List Event) (f : Finish) (s : Progress) (w : W)
      → IsCounted input s
      → IsCounted input (consume_until_done clients input events f s w).0.1
  unfolding consume_until_done
  run-IsCounted [] f s w h = h
  run-IsCounted (delivers m ∷ events) f s w h =
      run-IsCounted events _ _ _ (handle_payload-IsCounted m s w h)
  run-IsCounted (idles ∷ events) f s w h = run-IsCounted events _ s _ h
  run-IsCounted (rejects e ∷ events) f s w h = run-IsCounted events _ s _ h
