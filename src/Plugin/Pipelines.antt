-- ===== src/Plugin/Pipelines.antt =====
-- Several requests on one connection, one behind the other.
use mathlib.Core.Path.{subst}
use docker_plugin_cpp.Base.{
  ℕ, ◌≡◌, refl, sym, ap, ◌∙◌, ◌++◌, List, [], ◌∷◌, concat, Bytes, Bool, true, ◌==◌, Bool-cases, inl,
  inr,
}
use docker_plugin_cpp.Json.{Picojson}
use docker_plugin_cpp.Channel.Writing.{Delivers-refl, Delivers-trans}
use docker_plugin_cpp.Http.Connection.{Connection}
use docker_plugin_cpp.Http.Headers.{HeaderSet}
use docker_plugin_cpp.Http.Response.Wire.{IsLive, Delivers-IsLive, IsIdle}
use docker_plugin_cpp.Http.Callbacks.{Event, Methods, callback, run_callbacks}
use docker_plugin_cpp.Http.Callbacks.Assembly.{Fields}
use docker_plugin_cpp.Plugin.Routes.{route}
use docker_plugin_cpp.Plugin.Methods.{Plugin}
use docker_plugin_cpp.Plugin.Handlers.{PluginConnection, http_post, methods}
use docker_plugin_cpp.Plugin.Replies.{Answers, response_bytes}
use docker_plugin_cpp.Plugin.Requests.{request_events, expected, request-Answers}

-- A POST request, with the pieces that its parts come in.
pub record Request : Type 0 where
  pub urls : List Bytes
  pub fields : Fields
  pub bodies : List Bytes

unfoldable pub session_events : List Request → List Event
session_events [] = []
session_events (r ∷ rs) = request_events http_post r.urls r.fields r.bodies ++ session_events rs

-- The events behind a run that the parser did not stop.
run_callbacks-append :
    {D : Type 0} (m : Methods D) (events later : List Event) (h : Connection D)
    → (run_callbacks m events h).0 ≡ true
    → run_callbacks m (events ++ later) h ≡ run_callbacks m later (run_callbacks m events h).1
unfolding run_callbacks
run_callbacks-append m [] later h e = refl
run_callbacks-append m (event ∷ events) later h e =
    elim (Bool-cases ((callback m event h).0 == 0)) [
      | inl goes_on ↦
          rw goes_on (run_callbacks-append m events later (callback m event h).1 (rw goes_on at e))
      | inr stops ↦ cc (stops, e)
    ]

module _ {S : Type 0} where
  Answers-refl :
      (h : PluginConnection S) → IsIdle h → IsLive h.channel → Answers [] h.derived.drivers h h
  Answers-refl h idle live = record {
    delivered = Delivers-refl h.channel live.working;
    idle = idle;
    drivers_after = refl;
    defined = refl;
  }

  Answers-trans :
      {xs ys : Bytes} {s t : S} {a b c : PluginConnection S}
      → Answers xs s a b
      → Answers ys t b c
      → Answers (xs ++ ys) t a c
  Answers-trans d e = record {
    delivered = Delivers-trans d.delivered e.delivered;
    idle = e.idle;
    drivers_after = e.drivers_after;
    defined = e.defined ∙ d.defined;
  }

module _ (json : Picojson) (convert_time : ℕ → Bytes) {S : Type 0} (plugin : Plugin S) where
  -- The answers to a list of requests, each in the state that the one before it left.
  unfoldable pub session_replies : List Request → S → Bytes × S
  unfolding response_bytes
  session_replies [] s = ([], s)
  session_replies (r ∷ rs) s =
      let ((status, response, headers), s') =
        expected json convert_time plugin (route (concat r.urls)) (concat r.bodies) s in
      let (wire, s'') = session_replies rs s' in
      (response_bytes status response headers ++ wire, s'')

  pub session_replies-step :
      (r : Request) (rs : List Request) (s s' : S) (a : ℕ × Bytes × HeaderSet)
      → expected json convert_time plugin (route (concat r.urls)) (concat r.bodies) s ≡ (a, s')
      → session_replies (r ∷ rs) s
        ≡ (response_bytes a.0 a.1 a.2 ++ (session_replies rs s').0, (session_replies rs s').1)
  unfolding session_replies
  session_replies-step r rs s s' a e =
      ap
        (λ (o : (ℕ × Bytes × HeaderSet) × S). (
          response_bytes o.0.0 o.0.1 o.0.2 ++ (session_replies rs o.1).0,
          (session_replies rs o.1).1,
        ))
        e

  -- Any number of POST requests, one behind the other on an idle connection with an open socket on
  -- which no send fails, each in any pieces: the parser goes on to the end, the answers go out in
  -- the order of the requests and nothing else does, each method is called in the state that the
  -- one before it left, and the connection is idle again.
  pub session-Answers :
      (requests : List Request) (h : PluginConnection S)
      → IsIdle h
      → IsLive h.channel
      → let (wire, s) = session_replies requests h.derived.drivers in
        let (finished, h') =
          run_callbacks (methods json convert_time plugin) (session_events requests) h in
        (finished ≡ true) × Answers wire s h h'
  unfolding session_events session_replies run_callbacks
  session-Answers [] h idle live = (refl, Answers-refl h idle live)
  session-Answers (r ∷ rs) h idle live =
      let m = methods json convert_time plugin in
      let first = request_events http_post r.urls r.fields r.bodies in
      let (goes_on, answered) =
        request-Answers json convert_time plugin r.urls r.bodies r.fields h idle live in
      let h' = (run_callbacks m first h).1 in
      let (finished, rest) =
        session-Answers rs h' answered.idle (Delivers-IsLive live answered.delivered) in
      let e = run_callbacks-append m first (session_events rs) h goes_on in
      let h'' = (run_callbacks m (session_events rs) h').1 in
      let rest' =
        subst (λ s. Answers (session_replies rs s).0 (session_replies rs s).1 h' h'')
          answered.drivers_after rest in
      let ((status, response, headers), s') =
        expected json convert_time plugin (route (concat r.urls)) (concat r.bodies)
          h.derived.drivers in
      let (wire, s'') = session_replies rs s' in
      (
        ap (λ (k : Bool × PluginConnection S). k.0) e ∙ finished,
        subst
            (λ (k : Bool × PluginConnection S).
              Answers (response_bytes status response headers ++ wire) s'' h k.1)
            (sym e) (Answers-trans answered rest'),
      )
