-- ===== src/Topics/Laws.antt =====
-- The topics are there after `ensure_topics_exist`.
use nyc_taxi.Base.{
  Bool-cases, All, String, ◌≡◌, refl, sym, ap, subst, inl, inr, true, ◌&&◌, Option, none, some,
  List, [], ◌∷◌, map,
}
use nyc_taxi.Python.{Error, ok, Result-cases, Runtime}
use nyc_taxi.Topics.{
  TopicConfig, NewTopic, AdminClient, member, absent, new_topic, await_futures, create,
  or_default_topics, ensure_topics_exist,
}

-- A topic of which this came is there, made now or before.
abbrev pub IsThere {ℓ} : {Broker : Type ℓ} → AdminClient Broker → Option Error → Type 0
IsThere admin none = Unit
IsThere admin (some e) = (admin.is_kafka_exception e && admin.says_already_exists e) ≡ true

-- What the broker documents: a future for each topic, in order; a topic whose future returned, or
-- raised that it exists, is on the broker afterwards; and no topic disappears.
pub record IsAdmin {ℓ} {Broker : Type ℓ} (admin : AdminClient Broker) (names : Broker → List String)
    : Type ℓ where
  pub lists :
      (b : Broker) (existing : List String) → admin.list_topics b ≡ ok existing → existing ≡ names b
  pub answers :
      (topics : List NewTopic) (b : Broker)
      → map (λ f. f.0) (admin.create_topics topics b).0 ≡ map NewTopic.topic topics
  pub creates :
      (topics : List NewTopic) (b : Broker)
      → All
          (λ f. IsThere admin f.1 → member f.0 (names (admin.create_topics topics b).1) ≡ true)
          (admin.create_topics topics b).0
  pub keeps :
      (topics : List NewTopic) (b : Broker) (name : String)
      → member name (names b) ≡ true
      → member name (names (admin.create_topics topics b).1) ≡ true

module _ {ℓ} (rt : Runtime) {Broker : Type ℓ} (admin : AdminClient Broker)
    (names : Broker → List String) (broker : IsAdmin admin names) where
  abbrev pub AllExist : List TopicConfig → Broker → Type 0
  AllExist configs b = All (λ t. member t.name (names b) ≡ true) configs

  await_futures-AllThere :
      (futures : List (String × Option Error))
      → await_futures rt admin futures ≡ ok tt
      → All (λ f. IsThere admin f.1) futures
  unfolding await_futures
  await_futures-AllThere [] h = tt
  await_futures-AllThere ((name, none) ∷ futures) h = (tt, await_futures-AllThere futures h)
  await_futures-AllThere ((name, some e) ∷ futures) h =
      elim (Bool-cases (admin.is_kafka_exception e && admin.says_already_exists e)) [
        | inl there ↦ (there, await_futures-AllThere futures (rw there at h))
        | inr failed ↦ absurd (cc (rw failed at h))
      ]

  -- The futures are of these topics, so each of these exists.
  futures-AllExist :
      (futures : List (String × Option Error)) (configs : List TopicConfig) (b : Broker)
      → map (λ f. f.0) futures ≡ map NewTopic.topic (map (new_topic rt) configs)
      → All (λ f. IsThere admin f.1 → member f.0 (names b) ≡ true) futures
      → All (λ f. IsThere admin f.1) futures
      → AllExist configs b
  unfolding new_topic
  futures-AllExist [] [] b same made there = tt
  futures-AllExist [] (t ∷ configs) b same made there = absurd (cc)
  futures-AllExist (f ∷ futures) [] b same made there = absurd (cc)
  futures-AllExist (f ∷ futures) (t ∷ configs) b same made there =
      let name_same : f.0 ≡ t.name = cc in
      let rest_same : map (λ f. f.0) futures ≡ map NewTopic.topic (map (new_topic rt) configs) =
        cc in
      (
        subst (λ name. member name (names b) ≡ true) name_same (made.0 there.0),
        futures-AllExist futures configs b rest_same made.1 there.1,
      )

  -- A topic that is not among those to be made was there before.
  existing-AllExist :
      (configs : List TopicConfig) (b after : Broker)
      → ((name : String) → member name (names b) ≡ true → member name (names after) ≡ true)
      → AllExist (absent (names b) configs) after
      → AllExist configs after
  unfolding absent
  existing-AllExist [] b after keeps made = tt
  existing-AllExist (t ∷ configs) b after keeps made = elim (Bool-cases (member t.name (names b))) [
    | inl there ↦ (keeps t.name there, existing-AllExist configs b after keeps (rw there at made))
    | inr missing ↦
        let both : AllExist (t ∷ absent (names b) configs) after = rw missing at made in
        (both.0, existing-AllExist configs b after keeps both.1)
  ]

  AllExist-absent :
      (configs : List TopicConfig) (b : Broker) → AllExist configs b → absent (names b) configs ≡ []
  unfolding absent
  AllExist-absent [] b h = refl
  AllExist-absent (t ∷ configs) b h = rw h.0 (AllExist-absent configs b h.1)

  create-AllExist :
      (all configs : List TopicConfig) (b after : Broker)
      → absent (names b) all ≡ configs
      → create rt admin configs b ≡ (ok tt, after)
      → AllExist all after
  create-AllExist all [] b after none_absent h =
      existing-AllExist all b after
        (λ name there. subst (λ c. member name (names c) ≡ true) (ap (λ x. x.1) h) there)
        (rw none_absent tt)
  create-AllExist all (t ∷ configs) b after some_absent h =
      let topics = map (new_topic rt) (t ∷ configs) in
      let made = admin.create_topics topics b in
      let same : made.1 ≡ after = ap (λ x. x.1) h in
      subst (AllExist all) same (
        existing-AllExist all b made.1 (broker.keeps topics b) (
          subst (λ l. AllExist l made.1) (sym some_absent)
            (futures-AllExist made.0 (t ∷ configs) made.1 (broker.answers topics b)
              (broker.creates topics b) (await_futures-AllThere made.0 (ap (λ x. x.0) h)))))

  pub ensure_topics_exist-Made :
      (configs : List TopicConfig) (b after : Broker)
      → ensure_topics_exist rt admin configs b ≡ (ok tt, after)
      → AllExist (or_default_topics rt admin configs) after
  unfolding ensure_topics_exist
  ensure_topics_exist-Made configs b after h = elim (Result-cases (admin.list_topics b)) [
    | inr (e, failed) ↦ absurd (cc (rw failed at h))
    | inl (existing, listed) ↦
        let all = or_default_topics rt admin configs in
        create-AllExist all (absent (names b) all) b after refl
          (rw (listed, broker.lists b existing listed) at h)
  ]

  -- When `ensure_topics_exist` returns, each of the topics, or of the default ones where none is given,
  -- is on the broker; and a further call, if its listing returns, succeeds and changes nothing.
  pub ensure_topics_exist-AllExist :
      (configs : List TopicConfig) (b after : Broker) (relisted : List String)
      → ensure_topics_exist rt admin configs b ≡ (ok tt, after)
      → admin.list_topics after ≡ ok relisted
      → AllExist (or_default_topics rt admin configs) after
        × (ensure_topics_exist rt admin configs after ≡ (ok tt, after))
  unfolding ensure_topics_exist
  ensure_topics_exist-AllExist configs b after relisted h again =
      let there = ensure_topics_exist-Made configs b after h in
      (
        there,
        rw
            (
              again,
              broker.lists after relisted again,
              AllExist-absent (or_default_topics rt admin configs) after there,
            )
            refl,
      )
