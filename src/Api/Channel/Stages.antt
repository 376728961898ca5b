-- ===== src/Api/Channel/Stages.antt =====
-- How far the requests of amqprs/src/api/channel get, whatever the other tasks do.
use amqprs.Prelude.{
  ℕ, ◌≡◌, refl, sym, ◌∙◌, ◌⊎◌, inl, inr, Bool-cases, drop, zero, suc, ◌≤◌, arith, ◌==◌,
  if◌then◌else◌, ◌∷◌, Option, none, some,
}
use amqprs.Frame.MethodHeader.{MethodHeader}
use amqprs.Frame.Methods.{Method}
use amqprs.Frame.Frames.{Frame, method, heart_beat}
use amqprs.Net.ReaderHandler.{Parties}
use amqprs.Api.Dispatcher.{Peers, register_oneshot_responder}
use amqprs.Api.Call.{
  Answer, Attempt, Caller, World, Error, Receipt, returned, failed, waits, panics, arrives, dropped,
  pending, commanded, acknowledged, outgoing, received, Log, expected_method, synchronous_request,
  or_fail,
}
use amqprs.Api.Channel.{register_responder, request_with}

pub Receipt-cases :
    {B : Type 0} (r : Receipt B) → ((b : B) × (r ≡ arrives b)) ⊎ ((r ≡ dropped) ⊎ (r ≡ pending))
Receipt-cases (arrives b) = inl (b, refl)
Receipt-cases dropped = inr (inl refl)
Receipt-cases pending = inr (inr refl)

module _ {P : Peers} {Q : Parties} where
  abbrev pub caller_of : {A : Type 0} → Attempt P Q A → Caller P Q
  caller_of (returned a c) = c
  caller_of (failed e c) = c
  caller_of (waits c) = c
  caller_of (panics c) = c

  abbrev pub value_of : {A : Type 0} → Attempt P Q A → Option A
  value_of (returned a c) = some a
  value_of (failed e c) = none
  value_of (waits c) = none
  value_of (panics c) = none

  -- What a whole request does, newest first.
  abbrev pub conversation : World P Q → Caller P Q → MethodHeader → ℕ → Method → Frame → Log P Q
  conversation w c h channel_id m f =
      received f
      ∷ outgoing channel_id (method m)
      ∷ acknowledged
      ∷ commanded (register_oneshot_responder h (w.oneshot c.log) (w.acker c.log))
      ∷ c.log

  -- How far a request got: what it did is the conversation without its last `missing` steps.
  pub record Reached {A : Type 0} (w : World P Q) (c : Caller P Q) (answer : Answer A)
      (channel_id : ℕ) (m : Method) (r : Attempt P Q A) : Type 0 where
    pub missing : ℕ
    pub answered : Frame
    pub bounded : missing ≤ 4
    pub done_so_far :
        caller_of r
        ≡ record c { log = drop missing (conversation w c answer.header channel_id m answered) }
    pub result :
        value_of r ≡ (if missing == 0 then expected_method answer.expected answered else none)

  module _ {A : Type 0} (answer : Answer A) (e : Error) (channel_id : ℕ) (m : Method)
      (w : World P Q) (c : Caller P Q) where
    matching :
        (f : Frame) (x : Option A)
        → expected_method answer.expected f ≡ x
        → Reached w c answer channel_id m
            (or_fail e x w (record c { log = conversation w c answer.header channel_id m f }))
    matching f none n = record {
      missing = 0;
      answered = f;
      bounded = omega arith;
      done_so_far = refl;
      result = sym n;
    }
    matching f (some a) n = record {
      missing = 0;
      answered = f;
      bounded = omega arith;
      done_so_far = refl;
      result = sym n;
    }

    stage :
        (n : ℕ) (r : Attempt P Q A)
        → n ≤ 4
        → 1 ≤ n
        → caller_of r
          ≡ record c { log = drop n (conversation w c answer.header channel_id m heart_beat) }
        → value_of r ≡ none
        → Reached w c answer channel_id m r
    stage zero r h k reached stopped = absurd (omega arith)
    stage (suc n) r h k reached stopped = record {
      missing = suc n;
      answered = heart_beat;
      bounded = h;
      done_so_far = reached;
      result = stopped ∙ ground arith;
    }

    -- Whatever the other tasks do, what a request did is a beginning of its conversation
    -- (registered, acknowledged, sent, received), and it returns a value exactly where all four
    -- steps are done and the frame received is the expected response.
    pub request_with-Reached :
        Reached w c answer channel_id m (request_with e channel_id m answer w c)
    unfolding request_with register_responder
    request_with-Reached =
        let responder = w.oneshot c.log in
        let acker = w.acker c.log in
        let log₁ : Log P Q =
          commanded (register_oneshot_responder answer.header responder acker) ∷ c.log in
        let log₂ : Log P Q = acknowledged ∷ log₁ in
        let log₃ : Log P Q = outgoing channel_id (method m) ∷ log₂ in
        elim (Bool-cases (w.takes_command c.log)) [
          | inr t ↦ rw t (stage 4 _ (omega arith) (omega arith) refl refl)
          | inl t ↦ elim (Receipt-cases (w.acknowledges log₁ acker)) [
            | inr (inl k) ↦ rw (t, k) (stage 3 _ (omega arith) (omega arith) refl refl)
            | inr (inr k) ↦ rw (t, k) (stage 3 _ (omega arith) (omega arith) refl refl)
            | inl (u, k) ↦ elim (Bool-cases (w.takes_frame log₂)) [
              | inr s ↦
                  rw (t, k, synchronous_request, s)
                    (stage 2 _ (omega arith) (omega arith) refl refl)
              | inl s ↦ elim (Receipt-cases (w.responds log₃ responder)) [
                | inr (inl x) ↦
                    rw (t, k, synchronous_request, s, x)
                      (stage 1 _ (omega arith) (omega arith) refl refl)
                | inr (inr x) ↦
                    rw (t, k, synchronous_request, s, x)
                      (stage 1 _ (omega arith) (omega arith) refl refl)
                | inl (f, x) ↦
                    rw (t, k, synchronous_request, s, x)
                      (matching f (expected_method answer.expected f) refl)
              ]
            ]
          ]
        ]
