-- ===== src/Http/Callbacks/Sockets.antt =====
-- The socket over the callbacks of get_settings.
use docker_plugin_cpp.Base.{
  ℕ, refl, List, [], ◌∷◌, Option, none, some, Bytes, Bool, true, false, ◌==◌, ltb, length,
  if◌then◌else◌,
}
use docker_plugin_cpp.Http.Connection.{Connection}
use docker_plugin_cpp.Http.Response.Sockets.{
  SameSocket, SameSocket-refl, SameSocket-trans, SameSocket-branch,
}
use docker_plugin_cpp.Http.Callbacks.{
  Methods, Event, append_buffer, store_field, store_value, write_value, callback, run_callbacks,
}

module _ {D : Type 0} where
  -- Every overridden method leaves the socket as it is.
  pub record KeepsSocket (m : Methods D) : Type 0 where
    pub message_begin : (h : Connection D) → SameSocket h (m.on_message_begin h).1
    pub on_url : (method : ℕ) (u : Bytes) (h : Connection D) → SameSocket h (m.on_url method u h).1
    pub header_field :
        (field : Bytes) (h : Connection D) → SameSocket h (m.on_header_field field h).1
    pub header_value :
        (value : Bytes) (h : Connection D) → SameSocket h (m.on_header_value value h).1
    pub headers_complete : (h : Connection D) → SameSocket h (m.on_headers_complete h).1
    pub on_body : (part : Bytes) (h : Connection D) → SameSocket h (m.on_body part h).1
    pub message_complete : (h : Connection D) → SameSocket h (m.on_message_complete h).1

  -- Connections that differ in the members of http_connection only.
  other_buffer : (bytes : Bytes) (h : Connection D) → SameSocket h (record h { buffer = bytes })
  other_buffer bytes h = record { same = refl }

  pub branch_of_pair :
      {A : Type 0} {h : Connection D} (b : Bool) (x y : A × Connection D)
      → SameSocket h x.1
      → SameSocket h y.1
      → SameSocket h (if b then x else y).1
  branch_of_pair true x y s t = s
  branch_of_pair false x y s t = t

  store_field-SameSocket : (h : Connection D) → SameSocket h (store_field h)
  unfolding store_field
  store_field-SameSocket h = record { same = refl }

  write_value-SameSocket : (i : Option ℕ) (h : Connection D) → SameSocket h (write_value i h)
  unfolding write_value
  write_value-SameSocket none h = record { same = refl }
  write_value-SameSocket (some i) h =
      SameSocket-branch (ltb i (length h.headers)) (record { same = refl }) (SameSocket-refl h)

  store_value-SameSocket : (h : Connection D) → SameSocket h (store_value h)
  unfolding store_value
  store_value-SameSocket h = write_value-SameSocket h.current_header h

  append_buffer-SameSocket :
      (bytes : Bytes) (h : Connection D) → SameSocket h (append_buffer bytes h).1
  unfolding append_buffer
  append_buffer-SameSocket bytes h = record { same = refl }

  module _ (m : Methods D) (keeps : KeepsSocket m) where
    callback-SameSocket : (event : Event) (h : Connection D) → SameSocket h (callback m event h).1
    unfolding callback
    callback-SameSocket Event.message_begin h =
        SameSocket-trans (other_buffer [] h) (keeps.message_begin _)
    callback-SameSocket (Event.url at) h = append_buffer-SameSocket at h
    callback-SameSocket (Event.url_complete method) h =
        SameSocket-trans (keeps.on_url method h.buffer h) (other_buffer [] _)
    callback-SameSocket (Event.header_field at) h = append_buffer-SameSocket at h
    callback-SameSocket Event.header_field_complete h =
        SameSocket-trans (keeps.header_field h.buffer h) (
          SameSocket-trans
            (SameSocket-branch (m.on_header_field h.buffer h).1.buffer_headers
              (store_field-SameSocket _) (SameSocket-refl _))
            (other_buffer [] _))
    callback-SameSocket (Event.header_value at) h = append_buffer-SameSocket at h
    callback-SameSocket Event.header_value_complete h =
        SameSocket-trans (keeps.header_value h.buffer h) (
          SameSocket-trans
            (SameSocket-branch (m.on_header_value h.buffer h).1.buffer_headers
              (store_value-SameSocket _) (SameSocket-refl _))
            (other_buffer [] _))
    callback-SameSocket Event.headers_complete h =
        SameSocket-trans (other_buffer [] h) (keeps.headers_complete _)
    callback-SameSocket (Event.body at) h =
        branch_of_pair h.buffer_body (append_buffer at h) (m.on_body at h)
          (append_buffer-SameSocket at h) (keeps.on_body at h)
    callback-SameSocket Event.message_complete h =
        let handled = keeps.on_body h.buffer h in
        branch_of_pair h.buffer_body _ _
          (branch_of_pair ((m.on_body h.buffer h).0 == 0) _ _
            (SameSocket-trans handled (keeps.message_complete _)) handled)
          (SameSocket-trans (other_buffer [] h) (keeps.message_complete _))

    -- Whatever the parser finds in what was read.
    pub run_callbacks-SameSocket :
        (events : List Event) (h : Connection D) → SameSocket h (run_callbacks m events h).1
    unfolding run_callbacks
    run_callbacks-SameSocket [] h = SameSocket-refl h
    run_callbacks-SameSocket (event ∷ events) h =
        let first = callback-SameSocket event h in
        branch_of_pair ((callback m event h).0 == 0) _ _
          (SameSocket-trans first (run_callbacks-SameSocket events (callback m event h).1)) first
