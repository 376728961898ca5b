-- ===== src/Api/Connection/Opening.antt =====
-- What the handshake of `Connection::open` in amqprs/src/api/connection.rs agrees on, and what it
-- refuses.
use amqprs.Prelude.{
  ℕ, zero, suc, ◌≤◌, ◌≡◌, refl, sym, ap, ◌∙◌, ◌⊎◌, ◌&&◌, Bool-cases, inl, inr, Bool, true, false,
  List, [], ◌∷◌, done, arith,
}
use amqprs.Serde.Types.{FieldTable}
use amqprs.Frame.Method.Connection.{Start, StartOk, Tune, Open, OpenOk}
use amqprs.Frame.Methods
use amqprs.Frame.Methods.{Method}
use amqprs.Frame.Frames.{Frame, method}
use amqprs.Net.ReaderHandler.Frames.{default_conn_channel}
use amqprs.Api.Security.{get_mechanism_name}
use amqprs.Api.Connection.{OpenConnectionArguments}
use amqprs.Api.Connection.ServerProperties.{
  ServerProperties, server_properties_of, client_properties_of,
}
use amqprs.Api.Call.{connection_open_error}
use amqprs.Api.Connection.Handshake.{
  Written, raw, frame, succeeded, failed, default_locale, split, any_is, is_amqps, ser_protocol,
  protocol_default, make_start_ok, start_connection_negotiation, tuned_heartbeat, tuning_parameters,
  open_of, name_or, handshake,
}

-- What two ends agree on: the value of the other where one is zero, and the smaller one otherwise.
abbrev pub Agreed : ℕ → ℕ → ℕ → Type 0
Agreed server client h =
    ((server ≡ 0) × (h ≡ client))
    ⊎ (((client ≡ 0) × (h ≡ server))
        ⊎ ((1 ≤ server)
            × (1 ≤ client)
            × (h ≤ server)
            × (h ≤ client)
            × ((h ≡ server) ⊎ (h ≡ client))))

abbrev pub supports : List ℕ → List ℕ → Bool
supports name names = any_is name (split 32 names)

abbrev pub on_default : Method → Written
on_default m = frame default_conn_channel (method m)

abbrev pub tune_ok_of : Tune → ℕ → Method
tune_ok_of tune heartbeat =
    Methods.tune_ok
      (record { channel_max = tune.channel_max; frame_max = tune.frame_max; heartbeat = heartbeat })

pub tuned_heartbeat-Agreed :
    (server client : ℕ) → Agreed server client (tuned_heartbeat server client)
unfolding tuned_heartbeat
tuned_heartbeat-Agreed zero client = inl (refl, ground arith)
tuned_heartbeat-Agreed (suc s) zero = inr (inl (refl, ground arith))
tuned_heartbeat-Agreed (suc s) (suc c) =
    inr (inr (ground arith, ground arith, ground arith, ground arith, ground arith))

abbrev pub conversation : Start → Tune → OpenOk → List Frame → List Frame
conversation start tune open_ok rest =
    method (Methods.start start)
    ∷ method (Methods.tune tune)
    ∷ method (Methods.open_ok open_ok)
    ∷ rest

module _ (args : OpenConnectionArguments) (generated : List ℕ) (start : Start)
    (rest : List Frame) where
  -- Without TLS and with a scheme other than amqps, where the server sends Start with the locale
  -- and the mechanism among the words it supports, Tune and OpenOk, and the names and texts of
  -- both sides fit, the handshake writes the protocol header, StartOk, TuneOk and Open on channel
  -- 0 in this order and returns the values of the server for channel_max and frame_max, with a
  -- heartbeat that is the value of the other side where one is zero, and the smaller of the two
  -- otherwise.
  pub handshake-Agreed :
      (tune : Tune) (open_ok : OpenOk) (properties : FieldTable)
      (server_properties : ServerProperties) (start_ok : StartOk) (open_method : Open)
      → is_amqps args.scheme ≡ false
      → client_properties_of (name_or args.connection_name generated) ≡ done properties
      → supports default_locale start.locales.text ≡ true
      → supports (get_mechanism_name args.credentials) start.mechanisms.text ≡ true
      → server_properties_of start.server_properties ≡ done server_properties
      → make_start_ok args.credentials properties ≡ done start_ok
      → open_of args.virtual_host ≡ done open_method
      → (h : ℕ) × Agreed tune.heartbeat args.heartbeat h
        × (handshake generated args
              (record { incoming = conversation start tune open_ok rest; written = [] })
            ≡ succeeded
                (record {
                  server_properties = server_properties;
                  connection_name = name_or args.connection_name generated;
                  channel_max = tune.channel_max;
                  frame_max = tune.frame_max;
                  heartbeat = h;
                })
                (record {
                  incoming = rest;
                  written =
                      raw (ser_protocol protocol_default)
                      ∷ on_default (Methods.start_ok start_ok)
                      ∷ on_default (tune_ok_of tune h)
                      ∷ on_default (Methods.open_connection open_method)
                      ∷ [];
                }))
  unfolding handshake start_connection_negotiation tuning_parameters
  handshake-Agreed tune open_ok properties server_properties start_ok open_method hs hc hl hm hp hk
        ho =
      (
        tuned_heartbeat tune.heartbeat args.heartbeat,
        tuned_heartbeat-Agreed tune.heartbeat args.heartbeat,
        rw (hs, handshake, hc, hl, hm, hp, hk, ho) refl,
      )

  -- Without TLS and with a scheme other than amqps, where the properties of the client fit, a
  -- Start whose locales or whose mechanisms do not have the wanted one among their words ends the
  -- handshake in an error of opening, with nothing written but the protocol header.
  pub handshake-unsupported :
      (properties : FieldTable)
      → is_amqps args.scheme ≡ false
      → client_properties_of (name_or args.connection_name generated) ≡ done properties
      → (supports default_locale start.locales.text
          && supports (get_mechanism_name args.credentials) start.mechanisms.text)
        ≡ false
      → handshake generated args
          (record { incoming = method (Methods.start start) ∷ rest; written = [] })
        ≡ failed connection_open_error
            (record { incoming = rest; written = raw (ser_protocol protocol_default) ∷ [] })
  unfolding handshake start_connection_negotiation
  handshake-unsupported properties hs hc hu =
      elim (Bool-cases (supports default_locale start.locales.text)) [
        | inr hl ↦ rw (hs, handshake, hc, hl) refl
        | inl hl ↦
            let hm : supports (get_mechanism_name args.credentials) start.mechanisms.text ≡ false =
              sym (
                ap (λ b. b && supports (get_mechanism_name args.credentials) start.mechanisms.text)
                  hl)
              ∙ hu in
            rw (hs, handshake, hc, hl, hm) refl
      ]
