-- ===== src/Api/Dispatcher/Resources.antt =====
-- The consumers of a dispatcher: what holds of their resources between two events, and what becomes
-- of the messages of one consumer when a message is forwarded or a consumer is registered.
use amqprs.Prelude.{
  ℕ, ◌≡◌, refl, sym, ◌∙◌, ap, subst, Bool, true, false, Bool-cases, List, [], ◌∷◌, Option, none,
  some, Option-cases, is_some, inl, inr, done, if◌then◌else◌, arith, All, bytes_beq, bytes_beq_iff,
  bytes_eq, All-append,
}
use amqprs.Prelude.Map.{lookup, insert, remove, lookup-insert, lookup-remove}
use amqprs.Frame.Method.Basic.{Deliver}
use amqprs.Api.Dispatcher.{
  Peers, ConsumerMessage, ConsumerResource, ChannelDispatcher, Output, to_consumer,
}
use amqprs.Api.Dispatcher.Subscriber.{
  is_for, received, Action, receives, Handover, follow, subscriber, handed,
}
use amqprs.Api.Dispatcher.Consumers.{
  new_consumer_resource, push_message, forward_deliver, purge_keys, remove_all,
  purge_consumer_resource,
}

abbrev pub IsFor : List ℕ → ConsumerMessage → Type 0
IsFor tag message = is_for tag message.deliver ≡ true

abbrev pub Resources : Peers → Type 0
Resources P = List (List ℕ × ConsumerResource P)

pub neither : {A : Type 0} (b : Bool) → if◌then◌else◌ {A = List A} b [] [] ≡ []
neither true = refl
neither false = refl

module _ {P : Peers} where
  -- The buffer of a consumer that is registered is empty, and it does not expire; one that is not
  -- registered expires; the messages in a buffer are for its consumer.
  pub record Settled (tag : List ℕ) (r : ConsumerResource P) : Type 0 where
    pub registered : is_some r.tx ≡ true → (r.fifo ≡ []) × (r.expiration ≡ none)
    pub unregistered : is_some r.tx ≡ false → is_some r.expiration ≡ true
    pub addressed : All (IsFor tag) r.fifo

  abbrev pub Inv : Resources P → Type 0
  Inv resources =
      (tag : List ℕ) (r : ConsumerResource P) → lookup tag resources ≡ some r → Settled tag r

  pub insert-Inv :
      (resources : Resources P) (tag : List ℕ) (r : ConsumerResource P)
      → Inv resources
      → Settled tag r
      → Inv (insert tag r resources)
  insert-Inv resources tag r v s j x e = elim (Bool-cases (bytes_beq tag j)) [
    | inl same ↦
        let found : some x ≡ some r = sym e ∙ lookup-insert tag j r resources ∙ rw same refl in
        let this : x ≡ r = cc in
        let name : tag ≡ j = (bytes_beq_iff tag j).0 same in
        subst (λ (t : List ℕ). Settled t x) name
          (subst (λ (y : ConsumerResource P). Settled tag y) (sym this) s)
    | inr other ↦ v j x (sym (lookup-insert tag j r resources ∙ rw other refl) ∙ e)
  ]

  pub remove-Inv :
      (resources : Resources P) (tag : List ℕ) → Inv resources → Inv (remove tag resources)
  remove-Inv resources tag v j x e = v j x (ground (arith, lookup-remove tag j resources))

  subscriber-insert :
      (resources : Resources P) (tag₀ tag : List ℕ) (r : ConsumerResource P)
      → subscriber tag (insert tag₀ r resources) ≡ (
          if bytes_beq tag₀ tag
          then record { tx = r.tx; waiting = r.fifo }
          else subscriber tag resources)
  subscriber-insert resources tag₀ tag r = elim (Bool-cases (bytes_beq tag₀ tag)) [
    | inl e ↦ rw (lookup-insert tag₀ tag r resources, e) refl
    | inr e ↦ rw (lookup-insert tag₀ tag r resources, e) refl
  ]

  -- Nothing happens to another consumer.
  pub follow-put :
      (resources : Resources P) (tag₀ tag : List ℕ) (r : ConsumerResource P)
      (acts : List (Action P)) (out : List (Handover P))
      → follow acts (subscriber tag₀ resources) ≡ (record { tx = r.tx; waiting = r.fifo }, out)
      → follow (if bytes_beq tag₀ tag then acts else []) (subscriber tag resources)
        ≡ (subscriber tag (insert tag₀ r resources), if bytes_beq tag₀ tag then out else [])
  follow-put resources tag₀ tag r acts out h = elim (Bool-cases (bytes_beq tag₀ tag)) [
    | inl e ↦
        let name : tag₀ ≡ tag = (bytes_beq_iff tag₀ tag).0 e in
        rw (subscriber-insert resources tag₀ tag r, e, ← name) h
    | inr e ↦ rw (subscriber-insert resources tag₀ tag r, e) refl
  ]

  pushed-Settled :
      (tag : List ℕ) (r : ConsumerResource P) (message : ConsumerMessage)
      → IsFor tag message
      → r.tx ≡ none
      → Settled tag r
      → Settled tag (push_message message r)
  pushed-Settled tag r message for n s = record {
    registered = λ h. absurd (cc (h, n));
    unregistered = λ h. s.unregistered h;
    addressed = All-append (IsFor tag) r.fifo (message ∷ []) s.addressed (for, tt);
  }

  pub new_consumer_resource-Settled :
      (tag : List ℕ) (now : ℕ) → Settled tag (new_consumer_resource {P = P} now)
  new_consumer_resource-Settled tag now = record {
    registered = λ h. absurd (cc h);
    unregistered = λ h. refl;
    addressed = tt;
  }

  pub registered-Settled :
      (tag : List ℕ) (t : P.ConsumerTx)
      → Settled tag (record { fifo = []; tx = some t; expiration = none })
  registered-Settled tag t = record {
    registered = λ h. (refl, refl);
    unregistered = λ h. absurd (cc h);
    addressed = tt;
  }

  -- A message that names its consumer is handed to the sender that is registered or put behind
  -- those that wait for one, and nothing happens to another consumer.
  pub forward_deliver_lem :
      (now : ℕ) (message : ConsumerMessage) (m : Deliver) (d : ChannelDispatcher P)
      → message.deliver ≡ some m
      → Inv d.consumer_resources
      → (resources : Resources P) × (out : List (Output P)) × (forward_deliver now message d
          ≡ done (record d { consumer_resources = resources }, out))
        × Inv resources
        × ((tag : List ℕ)
            → follow (received tag message) (subscriber tag d.consumer_resources)
              ≡ (subscriber tag resources, handed tag out))
  unfolding forward_deliver
  forward_deliver_lem now message m d e v =
      let tag₀ : List ℕ = m.consumer_tag.text in
      let same : bytes_beq tag₀ tag₀ ≡ true = (bytes_beq_iff tag₀ tag₀).1 refl in
      let for : IsFor tag₀ message = rw (e, same) refl in
      let put : (r : ConsumerResource P) (out : List (Handover P))
          → follow (receives message ∷ []) (subscriber tag₀ d.consumer_resources)
            ≡ (record { tx = r.tx; waiting = r.fifo }, out)
          → (tag : List ℕ)
          → follow (received tag message) (subscriber tag d.consumer_resources) ≡ (
            subscriber tag (insert tag₀ r d.consumer_resources),
            if bytes_beq tag₀ tag then out else [],
          ) =
        λ r out h tag.
          ap
            (λ (o : Option Deliver).
              follow (if is_for tag o then receives message ∷ [] else [])
                (subscriber tag d.consumer_resources))
            e
          ∙ follow-put d.consumer_resources tag₀ tag r (receives message ∷ []) out h in
      elim (Option-cases (lookup tag₀ d.consumer_resources)) [
        | inl n ↦
            let r : ConsumerResource P = push_message message (new_consumer_resource now) in
            (
              insert tag₀ r d.consumer_resources,
              [],
              rw (e, n) refl,
              insert-Inv d.consumer_resources tag₀ r v (
                  pushed-Settled tag₀ (new_consumer_resource now) message for refl
                    (new_consumer_resource-Settled tag₀ now)),
              λ tag.
                  put r [] (rw n refl) tag
                  ∙ ap
                      (λ (l : List (Handover P)).
                        (subscriber tag (insert tag₀ r d.consumer_resources), l))
                      (neither (bytes_beq tag₀ tag)),
            )
        | inr (r, f) ↦ elim (Option-cases r.tx) [
          | inl n ↦
              let r' : ConsumerResource P = push_message message r in
              (
                insert tag₀ r' d.consumer_resources,
                [],
                rw (e, f, n) refl,
                insert-Inv d.consumer_resources tag₀ r' v
                    (pushed-Settled tag₀ r message for n (v tag₀ r f)),
                λ tag.
                    put r' [] (rw (f, n) refl) tag
                    ∙ ap
                        (λ (l : List (Handover P)).
                          (subscriber tag (insert tag₀ r' d.consumer_resources), l))
                        (neither (bytes_beq tag₀ tag)),
              )
          | inr (t, n) ↦ (
            insert tag₀ r d.consumer_resources,
            to_consumer t message ∷ [],
            rw (e, f, n) refl,
            insert-Inv d.consumer_resources tag₀ r v (v tag₀ r f),
            λ tag.
                put r ((t, message) ∷ []) (rw (f, n) refl) tag
                ∙ ap
                    (λ (o : Option Deliver). (
                      subscriber tag (insert tag₀ r d.consumer_resources),
                      if is_for tag o then (t, message) ∷ [] else [],
                    ))
                    (sym e),
          )
        ]
      ]

  remove_all-Inv :
      (keys : List (List ℕ)) (resources : Resources P)
      → Inv resources
      → Inv (remove_all keys resources)
  unfolding remove_all
  remove_all-Inv [] resources v = v
  remove_all-Inv (key ∷ keys) resources v =
      remove_all-Inv keys (remove key resources) (remove-Inv resources key v)

  pub purge-Inv :
      (now : ℕ) (d : ChannelDispatcher P)
      → Inv d.consumer_resources
      → Inv (purge_consumer_resource now d).consumer_resources
  unfolding purge_consumer_resource
  purge-Inv now d v = remove_all-Inv (purge_keys now d.consumer_resources) d.consumer_resources v
