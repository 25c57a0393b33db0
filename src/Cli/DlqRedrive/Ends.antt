-- ===== src/Cli/DlqRedrive/Ends.antt =====
-- When a redrive of dead letters comes to its end.
use message_management_api.Prelude.{
  ◌+◌, ◌≡◌, ◌<◌, refl, sym, ap, ◌∙◌, leb, ltb, Bool, true, false, ◌&&◌, List, [], ◌∷◌, all, length,
  arith, Bool-cases, inl, inr,
}
use message_management_api.Effects.{Result, ok, err}
use message_management_api.Cli.DlqRedrive.{
  DlqRedriveInput, DeadLetter, Clients, Progress, Republished, CommittedOffset, no_progress,
  check_limit, after_commit, after_send, handle_payload, Event, delivers, idles, rejects, Finish,
  waiting, resolved, rejected, finish, after_handler, consume_until_done,
}

abbrev pub is_waiting : Finish → Bool
is_waiting waiting = true
is_waiting _ = false

abbrev pub is_delivery : Event → Bool
is_delivery (delivers m) = true
is_delivery _ = false

finish-stays : (f g : Finish) → is_waiting f ≡ false → is_waiting (finish f g) ≡ false
finish-stays waiting g h = cc
finish-stays resolved g h = refl
finish-stays (rejected e) g h = refl

after_handler-stays :
    (f : Finish) (result : Result Bool)
    → is_waiting f ≡ false
    → is_waiting (after_handler f result) ≡ false
after_handler-stays f (ok true) h = finish-stays f resolved h
after_handler-stays f (ok false) h = h
after_handler-stays f (err e) h = h

-- Kafka's calls that do not throw.
pub record Answers {W : Type 0} (clients : Clients W) : Type 0 where
  pub send : (m : Republished) (w : W) → (clients.send m w).0 ≡ ok tt
  pub commit_offsets : (o : CommittedOffset) (w : W) → (clients.commit_offsets o w).0 ≡ ok tt

module _ {W : Type 0} (clients : Clients W) (input : DlqRedriveInput) where
  -- What is finished stays so.
  consume_until_done-stays :
      (events : List Event) (f : Finish) (s : Progress) (w : W)
      → is_waiting f ≡ false
      → is_waiting (consume_until_done clients input events f s w).0.0 ≡ false
  unfolding consume_until_done
  consume_until_done-stays [] f s w h = h
  consume_until_done-stays (delivers m ∷ events) f s w h =
      let out = handle_payload clients input m s w in
      consume_until_done-stays events (after_handler f out.0.0) out.0.1 _
        (after_handler-stays f out.0.0 h)
  consume_until_done-stays (idles ∷ events) f s w h =
      consume_until_done-stays events (finish f resolved) s _ (finish-stays f resolved h)
  consume_until_done-stays (rejects e ∷ events) f s w h =
      consume_until_done-stays events (finish f (rejected e)) s _ (finish-stays f (rejected e) h)

  check_limit-counts :
      (s : Progress) (w : W)
      → let out = check_limit input s w in
        (out.0.0 ≡ ok (leb input.limit s.consumed_count))
        × (out.0.1.consumed_count ≡ s.consumed_count)
  unfolding check_limit
  check_limit-counts s w = elim (Bool-cases (leb input.limit s.consumed_count)) [
    | inl h ↦ rw h (refl, refl)
    | inr h ↦ rw h (refl, refl)
  ]

  module _ (answers : Answers clients) where
    -- A handler that nothing disturbs counts its message and looks at the limit.
    handle_payload-counts :
        (m : DeadLetter) (s : Progress) (w : W)
        → let out = handle_payload clients input m s w in
          (out.0.0 ≡ ok (leb input.limit (s.consumed_count + 1)))
          × (out.0.1.consumed_count ≡ s.consumed_count + 1)
    unfolding handle_payload after_send after_commit
    handle_payload-counts m s w = elim (Bool-cases input.dry_run) [
      | inl dry ↦ rw dry (check_limit-counts (record s { consumed_count = s.consumed_count + 1 }) w)
      | inr applies ↦
          rw (applies, answers.send, answers.commit_offsets)
            (check_limit-counts
              (record s {
                consumed_count = s.consumed_count + 1;
                republished_count = s.republished_count + 1;
                committed_count = s.committed_count + 1;
              })
              _)
    ]

    waits :
        (events : List Event) (s : Progress) (w : W)
        → s.consumed_count < input.limit
        → is_waiting (consume_until_done clients input events waiting s w).0.0
          ≡ (all is_delivery events && ltb (s.consumed_count + length events) input.limit)
    unfolding consume_until_done
    waits [] s w h = ground arith
    waits (idles ∷ events) s w h = consume_until_done-stays events resolved s _ refl
    waits (rejects e ∷ events) s w h = consume_until_done-stays events (rejected e) s _ refl
    waits (delivers m ∷ events) s w h =
        let out = handle_payload clients input m s w in
        let counted = handle_payload-counts m s w in
        elim (Bool-cases (leb input.limit (s.consumed_count + 1))) [
          | inl full ↦
              rw (counted.0, full, consume_until_done)
                (consume_until_done-stays events resolved out.0.1 _ refl ∙ sym (ground arith))
          | inr more ↦
              rw (counted.0, more, consume_until_done)
                (waits events out.0.1 _ (ground (arith, counted.1, more))
                  ∙ ap (λ n. all is_delivery events && ltb n input.limit)
                      (omega (arith, counted.1)))
        ]

    -- A redrive with a positive limit, of which no call of Kafka throws, still waits exactly if it was
    -- only given messages, and fewer of them than the limit: the first message that reaches the
    -- limit, the idle timer and a rejection each end it, and it never ends otherwise. This is so in a
    -- dry run too.
    pub consume_until_done-waits :
        (events : List Event) (w : W)
        → 0 < input.limit
        → is_waiting (consume_until_done clients input events waiting no_progress w).0.0
          ≡ (all is_delivery events && ltb (length events) input.limit)
    consume_until_done-waits events w h =
        waits events no_progress w h
        ∙ ap (λ n. all is_delivery events && ltb n input.limit) (omega arith)
