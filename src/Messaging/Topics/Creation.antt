-- ===== src/Messaging/Topics/Creation.antt =====
-- The topics that exist after the initializer of libs/messaging/src/kafka-topic-initializer.service.ts
-- has run. Kafka's admin client is a parameter.
use message_management_api.Prelude.{
  String, ◌≡◌, refl, subst, ◌∙◌, inl, inr, Bool, true, false, List, [], ◌∷◌, ◌++◌, map,
  contains_text, arith,
}
use message_management_api.Effects.{Io, Result-cases, ◌>>=◌, act, finally_await}
use message_management_api.Domain.{message_created_topic}
use message_management_api.Persistence.Collection.{Does}
use message_management_api.Messaging.Topics.{
  Admin, TopicDefinition, message_created_dlq_topic, kafka_topic_definitions, missing_topics,
  initialize_topics,
}

abbrev pub names : List TopicDefinition → List String
names ds = map (λ d. d.topic) ds

-- Only `createTopics` changes the topics, and adds those that it is given; what it answers says
-- whether they were new.
pub record IsAdmin {W : Type 0} (admin : Admin W) (log : Bool → List String → W → W)
    (topics : W → List String) : Type 0 where
  pub connect : (w : W) → topics (admin.connect w).1 ≡ topics w
  pub list_topics : (w : W) → Does topics admin.list_topics w (topics w) (topics w)
  pub create_topics :
      (ds : List TopicDefinition) (w : W)
      → (created : Bool) × Does topics (admin.create_topics ds) w created (names ds ++ topics w)
  pub disconnect : (w : W) → topics (admin.disconnect w).1 ≡ topics w
  pub logs : (created : Bool) (ts : List String) (w : W) → topics (log created ts w) ≡ topics w

-- What the existing topics are extended to.
abbrev pub extended : List String → List String
extended existing = names (missing_topics existing) ++ existing

extended-contains :
    (existing : List String)
    → (contains_text message_created_topic (extended existing) ≡ true)
      × (contains_text message_created_dlq_topic (extended existing) ≡ true)
unfolding missing_topics
extended-contains existing = ground arith

extended_twice : (existing : List String) → extended (extended existing) ≡ extended existing
unfolding missing_topics
extended_twice existing = ground (arith, extended-contains existing)

module _ {W : Type 0} (admin : Admin W) (log : Bool → List String → W → W)
    (topics : W → List String) (laws : IsAdmin admin log topics) where
  -- The part between the connection and the disconnection, once the topics are listed.
  abbrev create : List TopicDefinition → Io W (Unit {0})
  create missing = elim missing [
    | [] ↦ act (log false (names kafka_topic_definitions))
    | d ∷ ds ↦ admin.create_topics (d ∷ ds) >>= λ created. act (log created (names (d ∷ ds)))
  ]

  create-Does :
      (missing : List TopicDefinition) (w : W)
      → Does topics (create missing) w tt (names missing ++ topics w)
  create-Does [] w = inl (refl, laws.logs _ _ w)
  create-Does (d ∷ ds) w = elim (laws.create_topics (d ∷ ds) w).1 [
    | inl (answered, done) ↦ rw answered (inl (refl, laws.logs _ _ _ ∙ done))
    | inr (e, thrown, rest) ↦ rw thrown (inr (e, refl, rest))
  ]

  -- A call that is made in another state with the same topics.
  later :
      {A : Type 0} (m : Io W A) (w v : W) (a : A) (after : List String)
      → topics v ≡ topics w
      → Does topics m v a after
      → Does topics (λ _. m v) w a after
  later m w v a after same (inl done) = inl done
  later m w v a after same (inr (e, thrown, inl done)) = inr (e, thrown, inl done)
  later m w v a after same (inr (e, thrown, inr left)) = inr (e, thrown, inr (left ∙ same))

  listed : Io W (Unit {0})
  listed = admin.list_topics >>= λ existing. create (missing_topics existing)

  listed-Does : (w : W) → Does topics listed w tt (extended (topics w))
  unfolding listed
  listed-Does w =
      let missing = missing_topics (topics w) in
      let v = (admin.list_topics w).1 in
      elim (laws.list_topics w) [
        | inl (answered, same) ↦ rw answered (
            later (create missing) w v tt (extended (topics w)) same (
              subst (λ ts. Does topics (create missing) v tt (names missing ++ ts)) same
                (create-Does missing v)))
        | inr (e, thrown, inl same) ↦ rw thrown (inr (e, refl, inr same))
        | inr (e, thrown, inr same) ↦ rw thrown (inr (e, refl, inr same))
      ]

  finished :
      (m : Io W (Unit {0})) (w : W) (after : List String)
      → Does topics m w tt after
      → Does topics (finally_await m admin.disconnect) w tt after
  finished m w after h = elim (Result-cases (admin.disconnect (m w).1).0) [
    | inl (left, answered) ↦ rw answered (elim h [
      | inl (done, added) ↦ inl (done, laws.disconnect _ ∙ added)
      | inr (e, thrown, inl added) ↦ inr (e, thrown, inl (laws.disconnect _ ∙ added))
      | inr (e, thrown, inr same) ↦ inr (e, thrown, inr (laws.disconnect _ ∙ same))
    ])
    | inr (x, failed) ↦ rw failed (elim h [
      | inl (done, added) ↦ inr (x, refl, inl (laws.disconnect _ ∙ added))
      | inr (e, thrown, inl added) ↦ inr (x, refl, inl (laws.disconnect _ ∙ added))
      | inr (e, thrown, inr same) ↦ inr (x, refl, inr (laws.disconnect _ ∙ same))
    ])
  ]

  -- The initializer, unless a call throws, adds exactly those of the two topics of the program that
  -- are missing, so that afterwards both exist, every other topic is as it was, and a second run adds
  -- none. A run in which a call throws adds these or none.
  pub initialize_topics-Does :
      (w : W)
      → Does topics (initialize_topics admin log) w tt (extended (topics w))
        × (contains_text message_created_topic (extended (topics w)) ≡ true)
        × (contains_text message_created_dlq_topic (extended (topics w)) ≡ true)
        × (extended (extended (topics w)) ≡ extended (topics w))
  unfolding initialize_topics listed
  initialize_topics-Does w =
      let both = extended-contains (topics w) in
      let v = (admin.connect w).1 in
      let whole = finally_await listed admin.disconnect in
      (
        elim (Result-cases (admin.connect w).0) [
          | inr (e, thrown) ↦ rw thrown (inr (e, refl, inr (laws.connect w)))
          | inl (done, answered) ↦ rw answered (
              later whole w v tt (extended (topics w)) (laws.connect w) (
                subst (λ ts. Does topics whole v tt (extended ts)) (laws.connect w)
                  (finished listed v (extended (topics v)) (listed-Does v))))
        ],
        both.0,
        both.1,
        extended_twice (topics w),
      )
