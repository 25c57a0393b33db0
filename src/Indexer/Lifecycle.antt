-- ===== src/Indexer/Lifecycle.antt =====
-- The start and the end of the consumer of apps/search-indexer/src/message-created.consumer.ts, and
-- what kafkajs tells it in between. The kafkajs consumer is a parameter.
use message_management_api.Prelude.{
  ◌≡◌, refl, ap, ◌∙◌, String, Bool, true, false, ◌&&◌, List, [], ◌∷◌, all, if◌then◌else◌, arith,
}
use message_management_api.Effects.{Io, Result, ok, err, Exception, ◌>>◌}
use message_management_api.Domain.{message_created_topic}

-- The calls of a kafkajs consumer; `subscribe` reads the topic from its beginning.
pub record ConsumerClient (W : Type 0) : Type 0 where
  pub connect : Io W (Unit {0})
  pub subscribe : String → Io W (Unit {0})
  pub disconnect : Io W (Unit {0})

-- The fields of the service: whether `consumer` is set, and `running`.
pub record ConsumerState : Type 0 where
  pub has_consumer : Bool
  pub running : Bool

abbrev pub created : ConsumerState
created = record { has_consumer = false; running = false }

-- The listeners: a crash, with whether kafkajs starts the consumer again; a stop; and the rejection of
-- the promise that `run` returned.
pub data ConsumerEvent : Type 0 where
  crashes : Bool → ConsumerEvent
  stops : ConsumerEvent
  run_rejects : Exception → ConsumerEvent

unfoldable pub on_event : ConsumerEvent → ConsumerState → ConsumerState
on_event (crashes restart) s = if restart then s else record s { running = false }
on_event stops s = record s { running = false }
on_event (run_rejects error) s = record s { running = false }

unfoldable pub on_events : List ConsumerEvent → ConsumerState → ConsumerState
unfolding on_event
on_events [] s = s
on_events (e ∷ es) s = on_events es (on_event e s)

abbrev succeeded : {A : Type 0} → Result A → Bool
succeeded (ok a) = true
succeeded (err e) = false

-- What a call leaves: how it ended, the fields, and the world.
abbrev pub Left : Type 0 → Type 0
Left W = (Result (Unit {0}) × ConsumerState) × W

module _ {W : Type 0} (client : ConsumerClient W) where
  -- Up to the call of `run`, which is not awaited. `consumer` is set first, `running` last.
  unfoldable pub on_module_init : W → Left W
  on_module_init w =
      let started : Io W (Unit {0}) = client.connect >> client.subscribe message_created_topic in
      let out = started w in
      ((out.0, record { has_consumer = true; running = succeeded out.0 }), out.1)

  -- `running` is reset before the call of `disconnect`.
  unfoldable pub on_application_shutdown : ConsumerState → W → Left W
  on_application_shutdown s w =
      let out = client.disconnect w in
      if s.has_consumer then ((out.0, record s { running = false }), out.1) else ((ok tt, s), w)

abbrev pub is_running : ConsumerState → Bool
is_running s = s.running

-- Whether kafkajs goes on after what it told.
abbrev pub goes_on : ConsumerEvent → Bool
goes_on (crashes restart) = restart
goes_on _ = false

pub running-on_events :
    (es : List ConsumerEvent) (s : ConsumerState)
    → is_running (on_events es s) ≡ (is_running s && all goes_on es)
unfolding on_events on_event
running-on_events [] s = ground arith
running-on_events (crashes restart ∷ es) s =
    ground (arith, running-on_events es s, running-on_events es (record s { running = false }))
running-on_events (stops ∷ es) s =
    ground (arith, running-on_events es (record s { running = false }))
running-on_events (run_rejects e ∷ es) s =
    ground (arith, running-on_events es (record s { running = false }))

has_consumer-on_events :
    (es : List ConsumerEvent) (s : ConsumerState) → (on_events es s).has_consumer ≡ s.has_consumer
unfolding on_events on_event
has_consumer-on_events [] s = refl
has_consumer-on_events (crashes true ∷ es) s = has_consumer-on_events es s
has_consumer-on_events (crashes false ∷ es) s =
    has_consumer-on_events es (record s { running = false })
has_consumer-on_events (stops ∷ es) s = has_consumer-on_events es (record s { running = false })
has_consumer-on_events (run_rejects e ∷ es) s =
    has_consumer-on_events es (record s { running = false })

stopped_lem :
    {W : Type 0} (client : ConsumerClient W) (s : ConsumerState) (v : W)
    → s.has_consumer ≡ true
    → (on_application_shutdown client s v).0.1 ≡ record s { running = false }
unfolding on_application_shutdown
stopped_lem client s v h = rw h refl

-- After a start that succeeded, the consumer tells that it is running exactly as long as all that
-- kafkajs told of were crashes after which it starts the consumer again; and once it was shut down,
-- even if the disconnection throws, it tells that it is not, whatever kafkajs tells.
pub is_running-lifecycle :
    {W : Type 0} (client : ConsumerClient W) (w v : W) (before after : List ConsumerEvent)
    → (on_module_init client w).0.0 ≡ ok tt
    → let s = on_events before (on_module_init client w).0.1 in
      (is_running s ≡ all goes_on before)
      × (is_running (on_events after (on_application_shutdown client s v).0.1) ≡ false)
unfolding on_module_init
is_running-lifecycle client w v before after started =
    let fresh : ConsumerState = record { has_consumer = true; running = true } in
    let s = on_events before fresh in
    let begun : (on_module_init client w).0.1 ≡ fresh = ground arith in
    let shut : (on_application_shutdown client s v).0.1 ≡ record s { running = false } =
      stopped_lem client s v (has_consumer-on_events before fresh) in
    rw begun (
      running-on_events before fresh,
      ap (λ t. is_running (on_events after t)) shut
          ∙ running-on_events after (record s { running = false }),
    )
