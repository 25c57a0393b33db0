-- ===== src/Cli/DlqRedrive/Rehearsal.antt =====
-- A dry run of apps/cli/src/services/dlq-redrive.service.ts, from its connection to its end.
use message_management_api.Prelude.{
  ◌+◌, ◌≡◌, ◌⊎◌, refl, ◌∙◌, inl, inr, true, String, Option, none, some, List, [], ◌∷◌, arith,
}
use message_management_api.Effects.{Result, ok, err, Exception, Result-cases}
use message_management_api.Messaging.Topics.{message_created_dlq_topic}
use message_management_api.Cli.DlqRedrive.{
  DlqRedriveInput, DlqRedriveResult, Clients, Connections, Progress, no_progress, Event, delivers,
  idles, rejects, Finish, waiting, resolved, rejected, consume_until_done, connect, disconnect,
  consumed, subscribed, outcome, redrive, result_of,
}
use message_management_api.Cli.DlqRedrive.Counts.{deliveries}
use message_management_api.Cli.DlqRedrive.Calls.{Call, IsKafka, Sequence, run-Sequence}

-- To connect, to subscribe and to disconnect sends and commits nothing.
pub record KeepsCalls {W : Type 0} (connections : Connections W) (log : W → List Call)
    : Type 0 where
  pub connect_consumer : (w : W) → log (connections.connect_consumer w).1 ≡ log w
  pub connect_producer : (w : W) → log (connections.connect_producer w).1 ≡ log w
  pub subscribe : (topic : String) (w : W) → log (connections.subscribe topic w).1 ≡ log w
  pub disconnect_consumer : (w : W) → log (connections.disconnect_consumer w).1 ≡ log w
  pub disconnect_producer : (w : W) → log (connections.disconnect_producer w).1 ≡ log w

-- No call was made, and the deliveries were only counted.
abbrev Rehearsed : List Event → List Call → Progress → List Call → Progress → Type 0
Rehearsed events before s after s' =
    (after ≡ before)
    × (s'.republished_count ≡ s.republished_count)
    × (s'.committed_count ≡ s.committed_count)
    × (s'.consumed_count ≡ deliveries events + s.consumed_count)

module _ (input : DlqRedriveInput) (dry : input.dry_run ≡ true) where
  Sequence-Rehearsed :
      (events : List Event) (before : List Call) (s : Progress) (after : List Call) (s' : Progress)
      → Sequence input events before s after s'
      → Rehearsed events before s after s'
  Sequence-Rehearsed [] before s after s' (same, e) = rw e (same, refl, refl, omega arith)
  Sequence-Rehearsed (delivers m ∷ events) before s after s' (calls, t, (one, kind), rest) =
      let (same, republished, committed, more) = Sequence-Rehearsed events calls t after s' rest in
      elim kind [
        | inl (rehearsal, kept, r, c) ↦
            (same ∙ kept, republished ∙ r, committed ∙ c, omega (arith, more, one))
        | inr (inl (applied, a, b, d)) ↦ cc
        | inr (inr (inl (applied, a, b, d))) ↦ cc
        | inr (inr (inr (applied, a, b, d))) ↦ cc
      ]
  Sequence-Rehearsed (idles ∷ events) before s after s' h =
      Sequence-Rehearsed events before s after s' h
  Sequence-Rehearsed (rejects e ∷ events) before s after s' h =
      Sequence-Rehearsed events before s after s' h

-- What a dry run reports: it still waits, or fails, or has counted the deliveries and nothing else.
abbrev pub ReportsNothing : List Event → Option (Result DlqRedriveResult) → Type 0
ReportsNothing events answer =
    (answer ≡ none)
    ⊎ ((e : Exception) × (answer ≡ some (err e)))
    ⊎ ((result : DlqRedriveResult) × (answer ≡ some (ok result))
        × (result.republished_count ≡ 0)
        × (result.committed_count ≡ 0)
        × (result.consumed_count ≡ deliveries events))

module _ {W : Type 0} (connections : Connections W) (clients : Clients W) (input : DlqRedriveInput)
    (log : W → List Call) (laws : IsKafka clients log) (keeps : KeepsCalls connections log)
    (dry : input.dry_run ≡ true) where
  disconnect-same : (w : W) → log (disconnect connections clients input w) ≡ log w
  disconnect-same w = keeps.disconnect_producer _ ∙ keeps.disconnect_consumer w

  connect-same : (w : W) → log (connect connections clients input w).1 ≡ log w
  connect-same w = elim (Result-cases (connections.connect_consumer w).0) [
    | inl (done, e) ↦ rw (e, dry) (keeps.connect_consumer w)
    | inr (x, e) ↦ rw e (keeps.connect_consumer w)
  ]

  ended :
      (events : List Event) (f : Finish) (s : Progress) (w v : W)
      → Rehearsed events (log w) no_progress (log v) s
      → let out = elim f as (λ _. Option (Result DlqRedriveResult) × W) [
        | waiting ↦ (none, v)
        | g ↦ (outcome g s, disconnect connections clients input v)
      ] in
        (log out.1 ≡ log w) × ReportsNothing events out.0
  ended events waiting s w v (same, r, c, n) = (same, inl refl)
  ended events resolved s w v (same, r, c, n) =
      (disconnect-same v ∙ same, inr (inr (result_of s, refl, r, c, omega (arith, n))))
  ended events (rejected e) s w v (same, r, c, n) = (disconnect-same v ∙ same, inr (inl (e, refl)))

  consumed-same :
      (events : List Event) (result : Result (Unit {0})) (w : W)
      → let out = consumed connections clients input events result w in
        (log out.1 ≡ log w) × ReportsNothing events out.0
  consumed-same events (err e) w = (disconnect-same w, inr (inl (e, refl)))
  consumed-same events (ok done) w =
      let out = consume_until_done clients input events waiting no_progress w in
      ended events out.0.0 out.0.1 w out.1 (
        Sequence-Rehearsed input dry events (log w) no_progress (log out.1) out.0.1
          (run-Sequence clients input log laws events waiting no_progress w))

  subscribed-same :
      (events : List Event) (result : Result (Unit {0})) (w : W)
      → let out = subscribed connections clients input events result w in
        (log out.1 ≡ log w) × ReportsNothing events out.0
  subscribed-same events (err e) w = (refl, inr (inl (e, refl)))
  subscribed-same events (ok done) w =
      let out = connections.subscribe message_created_dlq_topic w in
      let rest = consumed-same events out.0 out.1 in
      (rest.0 ∙ keeps.subscribe message_created_dlq_topic w, rest.1)

  -- A dry run, from its connection to its end, sends nothing and commits nothing, whatever is delivered,
  -- fails or times out; and if it ends with a result, this counts every delivered message as consumed
  -- and none as republished or committed. kafkajs commits nothing by itself unless it is told to.
  pub redrive-rehearses :
      (events : List Event) (w : W)
      → let out = redrive connections clients input events w in
        (log out.1 ≡ log w) × ReportsNothing events out.0
  unfolding redrive
  redrive-rehearses events w =
      let out = connect connections clients input w in
      let rest = subscribed-same events out.0 out.1 in (rest.0 ∙ connect-same w, rest.1)
