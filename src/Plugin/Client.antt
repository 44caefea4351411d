-- ===== src/Plugin/Client.antt =====
-- A client of the plugin, which reads the answers on its connection one behind the other.
use docker_plugin_cpp.Base.{
  ℕ, zero, suc, ◌≡◌, refl, sym, ap, ◌∙◌, ◌++◌, List, [], ◌∷◌, concat, Option, none, some, Bytes,
  text, All, length, append-nil, append_assoc,
}
use docker_plugin_cpp.Json.{Picojson}
use docker_plugin_cpp.Http.Headers.{HeaderSet}
use docker_plugin_cpp.Http.Headers.Laws.{All-set}
use docker_plugin_cpp.Http.Callbacks.{run_callbacks}
use docker_plugin_cpp.Http.Response.Reading.{IsField}
use docker_plugin_cpp.Http.Response.Framing.{read_response, read_response_lem}
use docker_plugin_cpp.Http.Response.Wire.{IsLive, IsIdle}
use docker_plugin_cpp.Plugin.Routes.{Endpoint, route}
use docker_plugin_cpp.Plugin.Methods.{Plugin}
use docker_plugin_cpp.Plugin.Handlers.{PluginConnection, methods}
use docker_plugin_cpp.Plugin.Replies.{response_bytes, content_type}
use docker_plugin_cpp.Plugin.Requests.{expected}
use docker_plugin_cpp.Plugin.Pipelines.{Request, session_events, session_replies, session-Answers}

-- So many answers, each with its status and its body, and what follows them.
pub read_answers : ℕ → Bytes → Option (List (ℕ × Bytes) × Bytes)
read_answers zero s = some ([], s)
read_answers (suc n) s = elim (read_response s) [
  | none ↦ none
  | some (status, body, rest) ↦ elim (read_answers n rest) [
    | none ↦ none
    | some (answers, later) ↦ some ((status, body) ∷ answers, later)
  ]
]

content_type-IsField : All IsField content_type
unfolding text
content_type-IsField =
    All-set IsField (text "content-type") (text "application/vnd.docker.plugins.v1.1+json") []
      (refl, refl, refl) tt

module _ (json : Picojson) (convert_time : ℕ → Bytes) {S : Type 0} (plugin : Plugin S) where
  expected-IsField :
      (endpoint : Option Endpoint) (str : Bytes) (s : S)
      → All IsField (expected json convert_time plugin endpoint str s).0.2
  expected-IsField none str s = tt
  expected-IsField (some endpoint) str s = content_type-IsField

  -- What the methods answer to a list of requests, each in the state that the one before it left:
  -- the status and the body.
  pub session_results : List Request → S → List (ℕ × Bytes)
  session_results [] s = []
  session_results (r ∷ rs) s =
      let ((status, response, headers), s') =
        expected json convert_time plugin (route (concat r.urls)) (concat r.bodies) s in
      (status, response) ∷ session_results rs s'

  pub session_results-step :
      (r : Request) (rs : List Request) (s s' : S) (a : ℕ × Bytes × HeaderSet)
      → expected json convert_time plugin (route (concat r.urls)) (concat r.bodies) s ≡ (a, s')
      → session_results (r ∷ rs) s ≡ (a.0, a.1) ∷ session_results rs s'
  unfolding session_results
  session_results-step r rs s s' a e =
      ap (λ (o : (ℕ × Bytes × HeaderSet) × S). (o.0.0, o.0.1) ∷ session_results rs o.1) e

  pub session_results-nil : (s : S) → session_results [] s ≡ []
  unfolding session_results
  session_results-nil s = refl

  read_session :
      (requests : List Request) (s : S) (rest : Bytes)
      → read_answers
          (length requests)
          ((session_replies json convert_time plugin requests s).0 ++ rest)
        ≡ some (session_results requests s, rest)
  unfolding read_answers session_results session_replies response_bytes
  read_session [] s rest = refl
  read_session (r ∷ rs) s rest =
      let answer = expected json convert_time plugin (route (concat r.urls)) (concat r.bodies) s in
      let later = (session_replies json convert_time plugin rs answer.1).0 in
      let first =
        read_response_lem answer.0.0 answer.0.1 (later ++ rest) answer.0.2
          (expected-IsField (route (concat r.urls)) (concat r.bodies) s) in
      cc (
        append_assoc (response_bytes answer.0.0 answer.0.1 answer.0.2) later rest,
        first,
        read_session rs answer.1 rest,
      )

  -- Of the bytes that go out while a client's POST requests are handled, one behind the other on an
  -- idle connection with an open socket on which no send fails, the client reads one answer to each
  -- request, in their order, each with the status and the body that the method called for it gives
  -- in the state that the one before it left; and no byte is left over.
  pub session-read_answers :
      (requests : List Request) (h : PluginConnection S)
      → IsIdle h
      → IsLive h.channel
      → let (finished, h') =
          run_callbacks (methods json convert_time plugin) (session_events requests) h in
        (wire : Bytes) × (h'.channel.sent ≡ h.channel.sent ++ wire)
        × (read_answers (length requests) wire
            ≡ some (session_results requests h.derived.drivers, []))
  session-read_answers requests h idle live =
      let (finished, answers) = session-Answers json convert_time plugin requests h idle live in
      let wire = (session_replies json convert_time plugin requests h.derived.drivers).0 in
      (
        wire,
        answers.delivered.sent,
        ap (read_answers (length requests)) (sym (append-nil wire))
            ∙ read_session requests h.derived.drivers [],
      )
