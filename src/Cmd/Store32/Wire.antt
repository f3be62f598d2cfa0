-- ===== src/Cmd/Store32/Wire.antt =====
-- The gateway and a client at the single-server program, over the wire.
use distributed_systems_go.Base.{
  ℕ, ◌≡◌, refl, ap, ap₂, ◌∙◌, arith, false, ◌∷◌, Text, text, eq_text, is_empty, ok,
}
use distributed_systems_go.Base.Int.{ℤ}
use distributed_systems_go.Base.Table.{lookup, insert}
use distributed_systems_go.Types.{Time, SensorData}
use distributed_systems_go.Http.Message.{
  Request, Response, status_ok, plain_response, create_json_response,
}
use distributed_systems_go.Http.Server.{
  Server, server_factory, register_handler, handler_key, find_handler, respond, handle_connection,
}
use distributed_systems_go.Http.Exchange.{get}
use distributed_systems_go.Http.Exchange.Loop.{
  Host, IsSound, IsSendable, IsSameAnswer, link_to, url_of, posted, post_json-answer,
}
use distributed_systems_go.Http.Exchange.Get.{asked, get-answer}
use distributed_systems_go.Http.Exchange.Answers.{
  plain_response-IsSendable, create_json_response-IsSendable,
}
use distributed_systems_go.Cmd.Json.{Json}
use distributed_systems_go.Cmd.Server.{stamp, json_response}
use distributed_systems_go.Cmd.Gateway.{forward_data}
use distributed_systems_go.Cmd.Gateway.Answer.{
  check_answer-same, server_url, url_of-server_url, data-IsPath, reason-ok,
}
use distributed_systems_go.Cmd.Gateway.Forward.{IsForwardable, forward_data-sent}
use distributed_systems_go.Cmd.Store32.{DataStore, store_data_point, stored_points}
use distributed_systems_go.Cmd.Store32.Handlers.{
  post_store, get_store, register_store_handlers, post_store-ok,
}

module _ (json : Json) (page address : Text) (listen : ℤ) where
  -- the server that `main` starts, for a request that comes at that time
  abbrev pub the_store : Time → Server DataStore
  the_store now = register_store_handlers json page now (server_factory address listen)

  store-posted :
      (now : Time) (host body : Text) (ds : DataStore)
      → handle_connection (the_store now) (ok (posted host (b'/' ∷ text "data") body)) ds
        ≡ post_store json now (posted host (b'/' ∷ text "data") body) ds
  unfolding handle_connection find_handler respond register_store_handlers register_handler
      server_factory handler_key text eq_text lookup insert
  store-posted now host body ds = refl

  store-asked :
      (now : Time) (host : Text) (ds : DataStore)
      → handle_connection (the_store now) (ok (asked host (b'/' ∷ text "data"))) ds
        ≡ (ds, json_response json (json.marshal_readings (stored_points ds)))
  unfolding handle_connection find_handler respond register_store_handlers register_handler
      server_factory handler_key text eq_text lookup insert get_store
  store-asked now host ds = refl

  module _ (h : Host) (sound : IsSound h) (host : Text) (port : ℕ) where
    -- What the gateway forwards, the store holds.
    forward_data-store :
        (now : Time) (d : SensorData) (body : Text) (ds : DataStore)
        → IsForwardable json h.memory host port d body
        → is_empty d.sensor_id ≡ false
        → forward_data json (link_to h (the_store now)) (server_url host port) d ds
          ≡ (store_data_point (stamp now d) ds, ok tt)
    unfolding plain_response
    forward_data-store now d body ds ((hh, hv, small), coded, read, (full, fits, room)) named =
        let req : Request = posted host (b'/' ∷ text "data") body in
        let reply : Response = plain_response status_ok (text "Data stored successfully") in
        let handled : handle_connection (the_store now) (ok req) ds
            ≡ (store_data_point (stamp now d) ds, reply) =
          store-posted now host body ds ∙ post_store-ok json now req d ds read named in
        let sendable : IsSendable (handle_connection (the_store now) (ok req) ds).1 =
          rw handled (plain_response-IsSendable 200 _ (omega arith) reason-ok) in
        let (moved, same) =
          post_json-answer h (the_store now) host (text "data") body port ds sound hh hv data-IsPath
            small full fits room sendable in
        forward_data-sent json (link_to h (the_store now)) (server_url host port)
          (url_of host port (text "data")) d body ds coded (url_of-server_url host port)
        ∙ ap₂ (λ (st : DataStore) r. (st, r))
            (moved ∙ ap (λ (x : DataStore × Response). x.0) handled)
            (check_answer-same reply _ (rw handled at same) refl)

    -- A reading with a sensor id that the gateway forwards to the single-server program is stored once,
    -- with the current time if it had none, and the forward returns no error. A client's `Get` of
    -- `/data` then changes nothing and gets the JSON of the store's readings. This holds if the server's host is plain and its port fits an int, the
    -- reading's JSON is read back and fits into memory, the readings have a JSON, and answers arrive
    -- as written.
    pub get-forward_data :
        (now later : Time) (d : SensorData) (body out : Text) (ds : DataStore)
        → IsForwardable json h.memory host port d body
        → is_empty d.sensor_id ≡ false
        → json.marshal_readings (store_data_point (stamp now d) ds).points ≡ ok out
        → let (ds', r) =
            forward_data json (link_to h (the_store now)) (server_url host port) d ds in
          let (ds'', answer) =
            get (link_to h (the_store later)) (url_of host port (text "data")) ds' in
          (ds' ≡ store_data_point (stamp now d) ds)
          × (r ≡ ok tt)
          × (ds'' ≡ ds')
          × IsSameAnswer (create_json_response status_ok out) answer
    unfolding json_response stored_points
    get-forward_data now later d body out ds able named coded =
        let forwarded = forward_data-store now d body ds able named in
        let ds' : DataStore = store_data_point (stamp now d) ds in
        let handled : handle_connection (the_store later) (ok (asked host (b'/' ∷ text "data"))) ds'
            ≡ (ds', create_json_response status_ok out) =
          store-asked later host ds' ∙ ap (λ r. (ds', json_response json r)) coded in
        let sendable : IsSendable
            (handle_connection (the_store later) (ok (asked host (b'/' ∷ text "data"))) ds').1 =
          rw handled (create_json_response-IsSendable 200 out (omega arith) reason-ok) in
        let (hh, hv, small) = able.0 in
        let (kept, same) =
          get-answer h (the_store later) host (text "data") port ds' sound hh hv data-IsPath small
            sendable in
        rw forwarded
          (refl, refl, kept ∙ ap (λ (x : DataStore × Response). x.0) handled, rw handled at same)
