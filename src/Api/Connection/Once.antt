-- ===== src/Api/Connection/Once.antt =====
-- A connection of amqprs/src/api/connection.rs is closed once, by its call or by its guard.
use amqprs.Prelude.{◌≡◌, refl, false, Bool-cases, Option-cases, ◌∷◌, inl, inr, nat_eq}
use amqprs.Frame.Methods
use amqprs.Frame.Methods.{Method, method_header}
use amqprs.Frame.Frames.{method}
use amqprs.Net.ReaderHandler.{Parties, register_responder}
use amqprs.Net.ReaderHandler.Frames.{default_conn_channel}
use amqprs.Api.Dispatcher.{Peers}
use amqprs.Api.Call.{
  expected_method, synchronous_request, Caller, World, Log, returned, managed, outgoing,
  acknowledged,
}
use amqprs.Api.Channel.Answers.{for_close}
use amqprs.Api.Channel.Stages.{caller_of, Receipt-cases}
use amqprs.Api.Connection.Calls.{
  default_close_connection, register_conn_responder, close_connection_handshake, close_connection,
  drop_connection_guard,
}

module _ {P : Peers} {Q : Parties} where
  -- No step of the closing sets the flag.
  handshake-keeps :
      (w : World P Q) (c : Caller P Q)
      → (caller_of (close_connection_handshake w c)).is_open ≡ c.is_open
  unfolding close_connection_handshake register_conn_responder
  handshake-keeps w c =
      let responder = w.conn_oneshot c.log in
      let acker = w.conn_acker c.log in
      let log₁ : Log P Q =
        managed (register_responder default_conn_channel for_close.header responder acker)
        ∷ c.log in
      let log₂ : Log P Q = acknowledged ∷ log₁ in
      let log₃ : Log P Q =
        outgoing default_conn_channel (method (Methods.close default_close_connection)) ∷ log₂ in
      elim (Bool-cases (w.takes_management c.log)) [
        | inr t ↦ rw t refl
        | inl t ↦ elim (Receipt-cases (w.conn_acknowledges log₁ acker)) [
          | inr (inl k) ↦ rw (t, k) refl
          | inr (inr k) ↦ rw (t, k) refl
          | inl (u, k) ↦ elim (Bool-cases (w.takes_frame log₂)) [
            | inr s ↦ rw (t, k, synchronous_request, s) refl
            | inl s ↦ elim (Receipt-cases (w.conn_responds log₃ responder)) [
              | inr (inl x) ↦ rw (t, k, synchronous_request, s, x) refl
              | inr (inr x) ↦ rw (t, k, synchronous_request, s, x) refl
              | inl (f, x) ↦ elim (Option-cases (expected_method for_close.expected f)) [
                | inl n ↦ rw (t, k, synchronous_request, s, x, n) refl
                | inr (a, n) ↦ rw (t, k, synchronous_request, s, x, n) refl
              ]
            ]
          ]
        ]
      ]

  -- Whatever becomes of the first close, neither another close nor the guard does anything.
  pub close_connection-once :
      (w later_world : World P Q) (c : Caller P Q)
      → let closed = caller_of (close_connection w c) in
        (closed.is_open ≡ false)
        × (close_connection later_world closed ≡ returned tt closed)
        × (drop_connection_guard later_world closed ≡ returned tt closed)
  unfolding close_connection drop_connection_guard
  close_connection-once w later_world c =
      let flag : (caller_of (close_connection w c)).is_open ≡ false = elim (Bool-cases c.is_open) [
        | inl open_now ↦ rw open_now (handshake-keeps w (record c { is_open = false }))
        | inr shut ↦ rw shut refl
      ] in
      (flag, rw flag refl, rw flag refl)
