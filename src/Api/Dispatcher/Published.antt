-- ===== src/Api/Dispatcher/Published.antt =====
-- From the writer of one client, amqprs/src/net/split_connection.rs, to a consumer of another one,
-- amqprs/src/api/channel/dispatcher.rs.
use amqprs.Prelude.{ℕ, ◌^◌, ◌≤◌, ◌<◌, ◌≡◌, sym, ◌∙◌, ap, subst, List, [], ◌∷◌, ◌++◌, length, All}
use amqprs.Frame.Method.Basic.{Publish, Deliver}
use amqprs.Frame.Methods
use amqprs.Frame.ContentHeader.{ContentHeader}
use amqprs.Frame.Frames.{method, content_header, ContentBody, publish_combo, ser_frame}
use amqprs.Frame.Decode.{ok}
use amqprs.Frame.Stream.{encode}
use amqprs.Net.SplitConnection.{write_frame}
use amqprs.Net.SplitConnection.Writer.{encode_chunks, IsChunk, write_frame-publish}
use amqprs.Api.Dispatcher.{Peers, ChannelDispatcher, register_content_consumer}
use amqprs.Api.Dispatcher.Resources.{Inv}
use amqprs.Api.Dispatcher.Subscriber.{received}
use amqprs.Api.Dispatcher.Commands.{command_actions}
use amqprs.Api.Dispatcher.Loop.{command}
use amqprs.Api.Dispatcher.Traffic.{message, Delivers}
use amqprs.Api.Dispatcher.Contiguous.{IsPart, content_events, run-deliver}

parts :
    (frame_max : ℕ) (chunks : List (List ℕ)) → All (IsChunk frame_max) chunks → All IsPart chunks
parts frame_max [] a = tt
parts frame_max (chunk ∷ chunks) a = (a.0.0, parts frame_max chunks a.1)

module _ {P : Peers} where
  -- With frame_max at least 9 and below 2 ^ 32, with the payloads of the method and of the header
  -- below 2 ^ 32 bytes, and with the size of the body in the header, what the writer hands over
  -- for a publish combination ends in body frames whose parts, behind a delivery and the header,
  -- bring the sender that is registered for its consumer one message with the body that was
  -- published, where the resources satisfy their invariant.
  pub write_frame-run :
      (channel frame_max : ℕ) (p : Publish) (h : ContentHeader) (b : ContentBody)
      → 9 ≤ frame_max
      → frame_max < 2 ^ 32
      → length (ser_frame (method (Methods.publish p))) < 2 ^ 32
      → length (ser_frame (content_header h)) < 2 ^ 32
      → h.common.body_size ≡ length b.inner
      → (now : ℕ) (m : Deliver) (d : ChannelDispatcher P) → Inv d.consumer_resources
      → (chunks : List (List ℕ)) × (write_frame [] channel (publish_combo p h b) frame_max
          ≡ ok (
              (encode channel (method (Methods.publish p)) ++ encode channel (content_header h))
              ++ encode_chunks channel chunks))
        × ((tag name : List ℕ) (tx : P.ConsumerTx)
            → Delivers tag
                (command now (register_content_consumer name tx)
                  ∷ content_events now (Methods.deliver m) h chunks)
                d
                (command_actions {P = P} tag (register_content_consumer name tx)
                  ++ received tag (message m h.basic_properties b.inner)))
  write_frame-run channel frame_max p h b lo hi hp hh size now m d v =
      let (chunks, e, cuts) = write_frame-publish channel frame_max p h b lo hi hp hh in
      (
        chunks,
        e,
        λ tag name tx.
            subst
              (λ (body : List ℕ).
                Delivers tag
                  (command now (register_content_consumer name tx)
                    ∷ content_events now (Methods.deliver m) h chunks)
                  d
                  (command_actions {P = P} tag (register_content_consumer name tx)
                    ++ received tag (message m h.basic_properties body)))
              cuts.0
              (run-deliver now m h chunks d (parts frame_max chunks cuts.1)
                (ap (λ (l : List ℕ). length l) cuts.0 ∙ sym size) v tag name tx),
      )
