-- ===== src/Sample/Replies.antt =====
-- register_volume of main, and what the plugin answers to a request to create a volume and to one to
-- get it.
use docker_plugin_cpp.Base.{
  ℕ, ◌≡◌, refl, ap, ◌∙◌, ◌++◌, [], ◌∷◌, concat, append-nil, some, Bytes, text, bytes_eq,
}
use docker_plugin_cpp.Json.{Picojson}
use docker_plugin_cpp.Result.{returned, ErrorResponse}
use docker_plugin_cpp.Messages
use docker_plugin_cpp.Volume.{CreateRequest, GetRequest, GetResponse}
use docker_plugin_cpp.Volume
use docker_plugin_cpp.Http.Headers.{HeaderSet}
use docker_plugin_cpp.Plugin.Routes.{route, find_route, routes, volume_create, volume_get}
use docker_plugin_cpp.Plugin.Methods.{Plugin, method_of, perform, call, answer}
use docker_plugin_cpp.Plugin.Startup.{no_drivers, register_volume}
use docker_plugin_cpp.Plugin.Replies.{response_bytes, content_type}
use docker_plugin_cpp.Plugin.Requests.{expected}
use docker_plugin_cpp.Plugin.Client.{session_results, session_results-step, session_results-nil}
use docker_plugin_cpp.Volume.ToJson.{to_json_raw}
use docker_plugin_cpp.Plugin.Pipelines.{Request, session_replies, session_replies-step}
use docker_plugin_cpp.Sample.Files.{Files}
use docker_plugin_cpp.Sample.Driver.{volume_plugin, create, get}

create_routed : route (text "/VolumeDriver.Create") ≡ some volume_create
unfolding route find_route routes text bytes_eq
create_routed = refl

get_routed : route (text "/VolumeDriver.Get") ≡ some volume_get
unfolding route find_route routes text bytes_eq
get_routed = refl

module _ {W : Type 0} (files : Files W) (root : Bytes) (json : Picojson)
    (convert_time : ℕ → Bytes) where
  -- The plugin behind register_volume.
  abbrev pub sample : Plugin W
  sample = register_volume (volume_plugin files root) no_drivers

  pub create_expected :
      (body : Bytes) (req : CreateRequest) (w v : W) (e : ErrorResponse)
      → Volume.FromJson.create_request json body ≡ returned req
      → create files root req w ≡ (returned e, v)
      → expected json convert_time sample (some volume_create) body w
        ≡ ((200, Messages.error_response json e, content_type), v)
  unfolding method_of perform call answer volume_plugin
  create_expected body req w v e parsed created = cc (parsed, created)

  pub get_expected :
      (body : Bytes) (req : GetRequest) (w v : W) (res : GetResponse)
      → Volume.FromJson.get_request json body ≡ returned req
      → get files root req w ≡ (returned res, v)
      → expected json convert_time sample (some volume_get) body w
        ≡ ((200, Volume.ToJson.get_response json convert_time res, content_type), v)
  unfolding method_of perform call answer volume_plugin
  get_expected body req w v res parsed got = cc (parsed, got)

  create_at :
      (first : Request) (w v : W) (a : ℕ × Bytes × HeaderSet)
      → expected json convert_time sample (some volume_create) (concat first.bodies) w ≡ (a, v)
      → concat first.urls ≡ text "/VolumeDriver.Create"
      → expected json convert_time sample (route (concat first.urls)) (concat first.bodies) w
        ≡ (a, v)
  create_at first w v a e u =
      ap (λ o. expected json convert_time sample o (concat first.bodies) w)
        (ap route u ∙ create_routed)
      ∙ e

  get_at :
      (second : Request) (v v' : W) (b : ℕ × Bytes × HeaderSet)
      → expected json convert_time sample (some volume_get) (concat second.bodies) v ≡ (b, v')
      → concat second.urls ≡ text "/VolumeDriver.Get"
      → expected json convert_time sample (route (concat second.urls)) (concat second.bodies) v
        ≡ (b, v')
  get_at second v v' b e u =
      ap (λ o. expected json convert_time sample o (concat second.bodies) v)
        (ap route u ∙ get_routed)
      ∙ e

  -- The answers to the two requests.
  pub replies_lem :
      (first second : Request) (w v v' : W) (a b : ℕ × Bytes × HeaderSet)
      → expected json convert_time sample (some volume_create) (concat first.bodies) w ≡ (a, v)
      → expected json convert_time sample (some volume_get) (concat second.bodies) v ≡ (b, v')
      → concat first.urls ≡ text "/VolumeDriver.Create"
      → concat second.urls ≡ text "/VolumeDriver.Get"
      → session_replies json convert_time sample (first ∷ second ∷ []) w
        ≡ (response_bytes a.0 a.1 a.2 ++ response_bytes b.0 b.1 b.2, v')
  unfolding session_replies
  replies_lem first second w v v' a b e e' u u' =
      session_replies-step json convert_time sample first (second ∷ []) w v a
        (create_at first w v a e u)
      ∙ ap (λ (r : Bytes × W). (response_bytes a.0 a.1 a.2 ++ r.0, r.1))
          (session_replies-step json convert_time sample second [] v v' b
            (get_at second v v' b e' u'))
      ∙ ap (λ wire. (response_bytes a.0 a.1 a.2 ++ wire, v'))
          (append-nil (response_bytes b.0 b.1 b.2))

  -- What a client reads of them.
  pub results_lem :
      (first second : Request) (w v v' : W) (a b : ℕ × Bytes × HeaderSet)
      → expected json convert_time sample (some volume_create) (concat first.bodies) w ≡ (a, v)
      → expected json convert_time sample (some volume_get) (concat second.bodies) v ≡ (b, v')
      → concat first.urls ≡ text "/VolumeDriver.Create"
      → concat second.urls ≡ text "/VolumeDriver.Get"
      → session_results json convert_time sample (first ∷ second ∷ []) w
        ≡ (a.0, a.1) ∷ (b.0, b.1) ∷ []
  results_lem first second w v v' a b e e' u u' =
      session_results-step json convert_time sample first (second ∷ []) w v a
        (create_at first w v a e u)
      ∙ ap (◌∷◌ (a.0, a.1)) (
          session_results-step json convert_time sample second [] v v' b
            (get_at second v v' b e' u'))
      ∙ ap (λ rest. (a.0, a.1) ∷ (b.0, b.1) ∷ rest)
          (session_results-nil json convert_time sample v')
