-- ===== src/Api/Dispatcher/Contents.antt =====
-- The content headers and bodies that follow a method, in the main loop of
-- amqprs/src/api/channel/dispatcher.rs.
use amqprs.Prelude.{
  ℕ, ◌-◌, List, [], ◌∷◌, ◌++◌, Option, none, some, Outcome, done, panic, ◌>>=◌, ◌>>◌, assert,
  unwrap, leb, ◌==◌, if◌then◌else◌, length, bytes_eq,
}
use amqprs.Frame.MethodHeader.{header_eq}
use amqprs.Frame.ContentHeader.{ContentHeader}
use amqprs.Frame.Frames.{Frame, content_header, content_body, ContentBody}
use amqprs.Api.Dispatcher.{
  Peers, State, initial, deliver, get_ok, get_empty, return, ChannelDispatcher, Output, to_getter,
}
use amqprs.Api.Dispatcher.Consumers.{forward_deliver, handle_return}

-- `remaining.checked_sub(len).expect(..)`.
abbrev pub checked_sub : ℕ → ℕ → Outcome ℕ
checked_sub remaining len = if leb len remaining then done (remaining - len) else panic

module _ {P : Peers} where
  -- `responder.as_ref().expect(..)` and `send(frame).unwrap()`.
  abbrev pub send_getter : ℕ → Option P.GetTx → Frame → Outcome (List (Output P))
  send_getter now responder frame = do
    tx ← unwrap responder
    assert (P.get_open now tx)
    done (to_getter tx frame ∷ [])

  unfoldable pub header_deliver :
      ℕ → ContentHeader → ChannelDispatcher P → Outcome (ChannelDispatcher P × List (Output P))
  header_deliver now h d =
      if h.common.body_size == 0
      then forward_deliver now
          (record {
            deliver = d.message_buffer.deliver;
            basic_properties = some h.basic_properties;
            content = some [];
            remaining = 0;
          })
          (record d { message_buffer = record d.message_buffer { deliver = none; remaining = 0 } })
      else done (
        record d {
          message_buffer = record d.message_buffer {
            basic_properties = some h.basic_properties;
            content = some [];
            remaining = h.common.body_size;
          };
        },
        [],
      )

  unfoldable pub header_get_ok :
      ℕ → ContentHeader → ChannelDispatcher P → Outcome (ChannelDispatcher P × List (Output P))
  header_get_ok now h d =
      let size = h.common.body_size in
      do
        sent ← send_getter now d.get_content_responder (content_header h)
        if size == 0
            then (do
              empty ← send_getter now d.get_content_responder (content_body (record { inner = [] }))
              done (
                record d {
                  getok_content_buffer = record d.getok_content_buffer { remaining = size };
                },
                sent ++ empty,
              ))
            else done (
              record d { getok_content_buffer = record { content = some []; remaining = size } },
              sent,
            )

  unfoldable pub header_return :
      ContentHeader → ChannelDispatcher P → Outcome (ChannelDispatcher P × List (Output P))
  header_return h d =
      if h.common.body_size == 0
      then (do
        ret ← unwrap d.return_buffer.ret
        done (
          record d { return_buffer = record d.return_buffer { ret = none; remaining = 0 } },
          handle_return d.callback ret h.basic_properties [],
        ))
      else done (
        record d {
          return_buffer = record d.return_buffer {
            basic_properties = some h.basic_properties;
            content = some [];
            remaining = h.common.body_size;
          };
        },
        [],
      )

  abbrev pub handle_content_header :
      ℕ
      → State
      → ContentHeader
      → ChannelDispatcher P
      → Outcome (ChannelDispatcher P × List (Output P))
  handle_content_header now deliver h d = header_deliver now h d
  handle_content_header now get_ok h d = header_get_ok now h d
  handle_content_header now return h d = header_return h d
  handle_content_header now initial h d = panic
  handle_content_header now get_empty h d = panic

  unfoldable pub body_deliver :
      ℕ → ContentBody → ChannelDispatcher P → Outcome (ChannelDispatcher P × List (Output P))
  body_deliver now body d = do
    content ← unwrap d.message_buffer.content
    left ← checked_sub d.message_buffer.remaining (length body.inner)
    if left == 0
        then forward_deliver now
            (record {
              deliver = d.message_buffer.deliver;
              basic_properties = d.message_buffer.basic_properties;
              content = some (content ++ body.inner);
              remaining = left;
            })
            (record d {
              message_buffer = record {
                deliver = none;
                basic_properties = none;
                content = none;
                remaining = left;
              };
            })
        else done (
          record d {
            message_buffer = record d.message_buffer {
              content = some (content ++ body.inner);
              remaining = left;
            };
          },
          [],
        )

  unfoldable pub body_get_ok :
      ℕ → ContentBody → ChannelDispatcher P → Outcome (ChannelDispatcher P × List (Output P))
  body_get_ok now body d = do
    content ← unwrap d.getok_content_buffer.content
    left ← checked_sub d.getok_content_buffer.remaining (length body.inner)
    if left == 0
        then (do
          sent ←
              send_getter now d.get_content_responder
                (content_body (record { inner = content ++ body.inner }))
          done (
            record d {
              get_content_responder = none;
              getok_content_buffer = record { content = none; remaining = left };
            },
            sent,
          ))
        else done (
          record d {
            getok_content_buffer = record {
              content = some (content ++ body.inner);
              remaining = left;
            };
          },
          [],
        )

  unfoldable pub body_return :
      ContentBody → ChannelDispatcher P → Outcome (ChannelDispatcher P × List (Output P))
  body_return body d = do
    content ← unwrap d.return_buffer.content
    left ← checked_sub d.return_buffer.remaining (length body.inner)
    if left == 0
        then (do
          ret ← unwrap d.return_buffer.ret
          basic_properties ← unwrap d.return_buffer.basic_properties
          done (
            record d {
              return_buffer = record {
                ret = none;
                basic_properties = none;
                content = none;
                remaining = left;
              };
            },
            handle_return d.callback ret basic_properties (content ++ body.inner),
          ))
        else done (
          record d {
            return_buffer = record d.return_buffer {
              content = some (content ++ body.inner);
              remaining = left;
            };
          },
          [],
        )

  abbrev pub handle_content_body :
      ℕ
      → State
      → ContentBody
      → ChannelDispatcher P
      → Outcome (ChannelDispatcher P × List (Output P))
  handle_content_body now deliver body d = body_deliver now body d
  handle_content_body now get_ok body d = body_get_ok now body d
  handle_content_body now return body d = body_return body d
  handle_content_body now initial body d = panic
  handle_content_body now get_empty body d = panic
