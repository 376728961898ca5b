-- ===== src/Api/Dispatcher/Whole/Contents.antt =====
-- The headers and bodies of amqprs/src/api/channel/dispatcher.rs keep messages whole.
use amqprs.Prelude.{
  Keeps, stopped, kept, Keeps-bind, Keeps-then, Keeps-if, ℕ, ◌≡◌, refl, subst, true, length, List,
  [], Option, none, some, is_some, unwrap, ◌==◌, All-append, bytes_eq,
}
use amqprs.Frame.MethodHeader.{header_eq}
use amqprs.Frame.ContentHeader.{ContentHeader}
use amqprs.Frame.Frames.{ContentBody}
use amqprs.Api.Dispatcher.{
  Peers, ChannelDispatcher, State, initial, deliver, get_ok, get_empty, return,
}
use amqprs.Api.Dispatcher.Contents.{
  checked_sub, header_deliver, header_get_ok, header_return, body_deliver, body_get_ok, body_return,
  handle_content_header, handle_content_body,
}
use amqprs.Api.Dispatcher.Whole.{
  Together, OutputIsWhole, OfCall, same, forward-Keeps, send-Keeps, return-AreWhole, Sound,
}

module _ {P : Peers} where
  pub header-Keeps :
      (now : ℕ) (s : State) (h : ContentHeader) (d : ChannelDispatcher P)
      → Sound d
      → Keeps OfCall (handle_content_header now s h d)
  unfolding header_deliver header_get_ok header_return
  header-Keeps now deliver h d v =
      Keeps-if (h.common.body_size == 0)
        (forward-Keeps now d.message_buffer.deliver (some h.basic_properties) (some []) 0 _ refl
          refl (record { buffer = v.buffer; fifos = v.fifos }))
        (kept (record { buffer = refl; fifos = v.fifos }, tt))
  header-Keeps now get_ok h d v = Keeps-then _ (send-Keeps now d.get_content_responder _) (λ sent a.
      Keeps-if (h.common.body_size == 0)
        (Keeps-then _ (send-Keeps now d.get_content_responder _)
          (λ empty b. kept (same d _ v refl refl, All-append OutputIsWhole sent empty a b)))
        (kept (same d _ v refl refl, a)))
  header-Keeps now return h d v =
      Keeps-if (h.common.body_size == 0)
        (Keeps-bind (unwrap d.return_buffer.ret) (λ ret.
          kept (same d _ v refl refl, return-AreWhole P d.callback ret h.basic_properties [])))
        (kept (same d _ v refl refl, tt))
  header-Keeps now initial h d v = stopped
  header-Keeps now get_empty h d v = stopped

  body-deliver :
      (now : ℕ) (b : ContentBody) (d : ChannelDispatcher P) (o : Option (List ℕ))
      → d.message_buffer.content ≡ o
      → Sound d
      → Keeps OfCall (body_deliver now b d)
  unfolding body_deliver
  body-deliver now b d none n v = rw n stopped
  body-deliver now b d (some content) n v =
      let props : is_some d.message_buffer.basic_properties ≡ true =
        subst (λ (o : Option (List ℕ)). Together o d.message_buffer.basic_properties) n v.buffer in
      rw n (
        Keeps-bind (checked_sub d.message_buffer.remaining (length b.inner)) (λ left.
          Keeps-if (left == 0)
            (forward-Keeps now d.message_buffer.deliver _ _ left _ props refl
              (record { buffer = tt; fifos = v.fifos }))
            (kept (record { buffer = props; fifos = v.fifos }, tt))))

  pub body-Keeps :
      (now : ℕ) (s : State) (b : ContentBody) (d : ChannelDispatcher P)
      → Sound d
      → Keeps OfCall (handle_content_body now s b d)
  unfolding body_get_ok body_return
  body-Keeps now deliver b d v = body-deliver now b d d.message_buffer.content refl v
  body-Keeps now get_ok b d v = Keeps-bind (unwrap d.getok_content_buffer.content) (λ content.
      Keeps-bind (checked_sub d.getok_content_buffer.remaining (length b.inner)) (λ left.
        Keeps-if (left == 0)
          (Keeps-then _ (send-Keeps now d.get_content_responder _)
            (λ sent a. kept (same d _ v refl refl, a)))
          (kept (same d _ v refl refl, tt))))
  body-Keeps now return b d v = Keeps-bind (unwrap d.return_buffer.content) (λ content.
      Keeps-bind (checked_sub d.return_buffer.remaining (length b.inner)) (λ left.
        Keeps-if (left == 0)
          (Keeps-bind (unwrap d.return_buffer.ret) (λ ret.
            Keeps-bind (unwrap d.return_buffer.basic_properties)
              (λ props. kept (same d _ v refl refl, return-AreWhole P d.callback ret props _))))
          (kept (same d _ v refl refl, tt))))
  body-Keeps now initial b d v = stopped
  body-Keeps now get_empty b d v = stopped
