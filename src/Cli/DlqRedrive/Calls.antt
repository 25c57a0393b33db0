-- ===== src/Cli/DlqRedrive/Calls.antt =====
-- The calls of Kafka that a redrive of dead letters makes.
use message_management_api.Prelude.{
  ◌+◌, ◌≡◌, refl, ◌∙◌, ap, subst, Bool, ◌⊎◌, false, inl, inr, leb, true, List, [], ◌∷◌, Bool-cases,
}
use message_management_api.Effects.{Result, ok, err}
use message_management_api.Domain.{message_created_topic}
use message_management_api.Persistence.Collection.{Does}
use message_management_api.Cli.DlqRedrive.{
  DlqRedriveInput, DeadLetter, Clients, Progress, Republished, CommittedOffset, RunOptions,
  run_options, stopped, after_payload, after_handler, finish, resolved, rejected,
  republish_dlq_message, next_offset, check_limit, after_commit, after_send, handle_payload, Event,
  delivers, idles, rejects, Finish, waiting, consume_until_done,
}

-- The calls that Kafka has got, the last first.
pub data Call : Type 0 where
  sends : Republished → Call
  commits : CommittedOffset → Call

-- What kafkajs documents; by itself it commits only with `autoCommit`.
pub record IsKafka {W : Type 0} (clients : Clients W) (log : W → List Call) : Type 0 where
  pub send : (m : Republished) (w : W) → Does log (clients.send m) w tt (sends m ∷ log w)
  pub commit_offsets :
      (o : CommittedOffset) (w : W) → Does log (clients.commit_offsets o) w tt (commits o ∷ log w)
  pub stop : (w : W) → log (clients.stop w).1 ≡ log w
  pub after_message :
      (options : RunOptions) (m : DeadLetter) (w : W)
      → options.auto_commit ≡ false
      → log (clients.after_message options m w) ≡ log w

abbrev pub copy_of : DeadLetter → Republished
copy_of m = record { topic = message_created_topic; key = m.key; value = m.value }

abbrev pub offset_after : DeadLetter → CommittedOffset
offset_after m = record { topic = m.topic; partition = m.partition; offset = m.offset + 1 }

-- What one delivered message adds to the calls and the counts: nothing but its consumption in a dry run;
-- else it was not taken, or it was taken but its offset not committed, or both were done.
abbrev pub OneMessage :
    DlqRedriveInput → DeadLetter → List Call → Progress → List Call → Progress → Type 0
OneMessage input m before s after s' =
    let sent = sends (copy_of m) ∷ before in
    let committed = commits (offset_after m) ∷ sent in
    (s'.consumed_count ≡ s.consumed_count + 1)
    × (((input.dry_run ≡ true)
          × (after ≡ before)
          × (s'.republished_count ≡ s.republished_count)
          × (s'.committed_count ≡ s.committed_count))
        ⊎ ((input.dry_run ≡ false)
            × (s'.republished_count ≡ s.republished_count)
            × (s'.committed_count ≡ s.committed_count)
            × ((after ≡ sent) ⊎ (after ≡ before)))
        ⊎ ((input.dry_run ≡ false)
            × (s'.republished_count ≡ s.republished_count + 1)
            × (s'.committed_count ≡ s.committed_count)
            × ((after ≡ committed) ⊎ (after ≡ sent)))
        ⊎ ((input.dry_run ≡ false)
            × (s'.republished_count ≡ s.republished_count + 1)
            × (s'.committed_count ≡ s.committed_count + 1)
            × (after ≡ committed)))

abbrev pub Sequence :
    DlqRedriveInput → List Event → List Call → Progress → List Call → Progress → Type 0
Sequence input [] before s after s' = (after ≡ before) × (s' ≡ s)
Sequence input (delivers m ∷ events) before s after s' =
    (calls : List Call) × (t : Progress) × OneMessage input m before s calls t
    × Sequence input events calls t after s'
Sequence input (idles ∷ events) before s after s' = Sequence input events before s after s'
Sequence input (rejects e ∷ events) before s after s' = Sequence input events before s after s'

module _ {W : Type 0} (clients : Clients W) (input : DlqRedriveInput) (log : W → List Call)
    (laws : IsKafka clients log) where
  after_payload-same :
      (m : DeadLetter) (f : Finish) (result : Result Bool) (w : W)
      → log (after_payload clients input m f result w) ≡ log w
  after_payload-same m waiting (ok true) w = laws.after_message run_options m _ refl ∙ laws.stop w
  after_payload-same m resolved (ok true) w = laws.after_message run_options m w refl
  after_payload-same m (rejected e) (ok true) w = laws.after_message run_options m w refl
  after_payload-same m f (ok false) w = laws.after_message run_options m w refl
  after_payload-same m f (err e) w = refl

  stopped-same : (f : Finish) (w : W) → log (stopped clients input f w) ≡ log w
  stopped-same waiting w = laws.stop w
  stopped-same resolved w = refl
  stopped-same (rejected e) w = refl

  check_limit-log :
      (s : Progress) (w : W)
      → let out = check_limit input s w in
        (out.1 ≡ w)
        × (out.0.1.consumed_count ≡ s.consumed_count)
        × (out.0.1.republished_count ≡ s.republished_count)
        × (out.0.1.committed_count ≡ s.committed_count)
  unfolding check_limit
  check_limit-log s w = elim (Bool-cases (leb input.limit s.consumed_count)) [
    | inl e ↦ rw e (refl, refl, refl, refl)
    | inr e ↦ rw e (refl, refl, refl, refl)
  ]

  handle_payload-OneMessage :
      (m : DeadLetter) (s : Progress) (w : W)
      → let out = handle_payload clients input m s w in
        OneMessage input m (log w) s (log out.1) out.0.1
  unfolding handle_payload after_send after_commit republish_dlq_message next_offset
  handle_payload-OneMessage m s w = elim (Bool-cases input.dry_run) [
    | inl dry ↦
        (let (same, consumed, republished, committed) =
            check_limit-log (record s { consumed_count = s.consumed_count + 1 }) w in
          rw dry (consumed, inl (refl, ap log same, republished, committed)))
    | inr wet ↦
        (let sent = clients.send (copy_of m) in
          let committing = clients.commit_offsets (offset_after m) in
          let v = (sent w).1 in
          elim (laws.send (copy_of m) w) [
            | inr (e, thrown, inl done) ↦
                rw (wet, thrown) (refl, inr (inl (refl, refl, refl, inl done)))
            | inr (e, thrown, inr left) ↦
                rw (wet, thrown) (refl, inr (inl (refl, refl, refl, inr left)))
            | inl (answered, done) ↦ elim (laws.commit_offsets (offset_after m) v) [
              | inr (e, thrown, inl done') ↦
                  rw (wet, answered, thrown)
                    (
                      refl,
                      inr (
                          inr (
                            inl (
                              refl,
                              refl,
                              refl,
                              inl (done' ∙ ap (◌∷◌ (commits (offset_after m))) done),
                            ))),
                    )
              | inr (e, thrown, inr left) ↦
                  rw (wet, answered, thrown)
                    (refl, inr (inr (inl (refl, refl, refl, inr (left ∙ done)))))
              | inl (answered', done') ↦
                  (let (same, consumed, republished, committed) =
                      check_limit-log
                        (record s {
                          consumed_count = s.consumed_count + 1;
                          republished_count = s.republished_count + 1;
                          committed_count = s.committed_count + 1;
                        })
                        (committing v).1 in
                    rw (wet, answered, answered')
                      (
                        consumed,
                        inr (
                            inr (
                              inr (
                                refl,
                                republished,
                                committed,
                                ap log same ∙ done' ∙ ap (◌∷◌ (commits (offset_after m))) done,
                              ))),
                      ))
            ]
          ])
  ]

  pub run-Sequence :
      (events : List Event) (f : Finish) (s : Progress) (w : W)
      → let out = consume_until_done clients input events f s w in
        Sequence input events (log w) s (log out.1) out.0.1
  unfolding consume_until_done
  run-Sequence [] f s w = (refl, refl)
  run-Sequence (delivers m ∷ events) f s w =
      let out = handle_payload clients input m s w in
      let v = after_payload clients input m f out.0.0 out.1 in
      let end = consume_until_done clients input events (after_handler f out.0.0) out.0.1 v in
      (
        log out.1,
        out.0.1,
        handle_payload-OneMessage m s w,
        subst (λ l. Sequence input events l out.0.1 (log end.1) end.0.1)
            (after_payload-same m f out.0.0 out.1)
            (run-Sequence events (after_handler f out.0.0) out.0.1 v),
      )
  run-Sequence (idles ∷ events) f s w =
      let v = stopped clients input f w in
      let end = consume_until_done clients input events (finish f resolved) s v in
      subst (λ l. Sequence input events l s (log end.1) end.0.1) (stopped-same f w)
        (run-Sequence events (finish f resolved) s v)
  run-Sequence (rejects e ∷ events) f s w =
      let v = stopped clients input f w in
      let end = consume_until_done clients input events (finish f (rejected e)) s v in
      subst (λ l. Sequence input events l s (log end.1) end.0.1) (stopped-same f w)
        (run-Sequence events (finish f (rejected e)) s v)
