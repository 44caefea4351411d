-- ===== src/Http/Callbacks/Assembly.antt =====
-- The buffer: the parser hands over a URL, a name, a value or a body in pieces, and the callbacks
-- put them together.
use docker_plugin_cpp.Base.{
  ℕ, ◌<◌, ◌≡◌, refl, sym, ap, ◌∙◌, ◌++◌, List, [], ◌∷◌, map, concat, length, some, Bytes, Bool,
  true, arith, append-nil, append_assoc, if_true,
}
use docker_plugin_cpp.Map.{emplace, emplace_at}
use docker_plugin_cpp.Map.Laws.{emplace_at-lt}
use docker_plugin_cpp.Http.Headers.{HeaderSet, to_lower, header_rank}
use docker_plugin_cpp.Http.Connection.{Connection}
use docker_plugin_cpp.Http.Callbacks.{
  Methods, Event, url, header_field, header_field_complete, header_value, header_value_complete,
  body, set_value, append_buffer, store_field, store_value, write_value, callback, run_callbacks,
}

-- An event for each piece, and then others.
unfoldable pub pieces : (Bytes → Event) → List Bytes → List Event → List Event
pieces event [] rest = rest
pieces event (part ∷ parts) rest = event part ∷ pieces event parts rest

-- The value goes to the entry that was made for the name.
set_value-emplace :
    (k v : Bytes) (hs : HeaderSet)
    → set_value (emplace_at header_rank k hs) v (emplace header_rank k [] hs)
      ≡ emplace header_rank k v hs
unfolding set_value emplace emplace_at
set_value-emplace k v [] = refl
set_value-emplace k v ((j, w) ∷ hs) = ground (arith, set_value-emplace k v hs)

-- A header that is stored: its name in lower case, its value, and the iterator at its entry.
abbrev pub add_header : {D : Type 0} → Bytes → Bytes → Connection D → Connection D
add_header name value h =
    let key = map to_lower name in
    record h {
      buffer = [];
      headers = emplace header_rank key value h.headers;
      current_header = some (emplace_at header_rank key h.headers);
    }

-- The pieces of names and values.
abbrev pub Fields : Type 0
Fields = List (List Bytes × List Bytes)

unfoldable pub field_events : Fields → List Event → List Event
field_events [] rest = rest
field_events ((names, values) ∷ fields) rest = pieces header_field names (
    header_field_complete
    ∷ pieces header_value values (header_value_complete ∷ field_events fields rest))

unfoldable pub add_headers : {D : Type 0} → Fields → Connection D → Connection D
add_headers [] h = h
add_headers ((names, values) ∷ fields) h =
    add_headers fields (add_header (concat names) (concat values) h)

value_written :
    {D : Type 0} (h : Connection D) (i : ℕ)
    → h.current_header ≡ some i
    → i < length h.headers
    → store_value h ≡ record h { headers = set_value i h.buffer h.headers }
unfolding store_value write_value
value_written h i at inside = ground arith

module _ {D : Type 0} (m : Methods D) where
  -- Events that only append to the buffer, as long as `P` holds of the flag.
  run-pieces :
      (P : Bool → Type 0) (event : Bytes → Event)
      → ((part : Bytes) (h : Connection D)
          → P h.buffer_body
          → callback m (event part) h ≡ append_buffer part h)
      → (parts : List Bytes) (rest : List Event) (h : Connection D) → P h.buffer_body
      → run_callbacks m (pieces event parts rest) h
        ≡ run_callbacks m rest (record h { buffer = h.buffer ++ concat parts })
  unfolding run_callbacks pieces append_buffer
  run-pieces P event appends [] rest h p =
      ap (λ b. run_callbacks m rest (record h { buffer = b })) (sym (append-nil h.buffer))
  run-pieces P event appends (part ∷ parts) rest h p = rw (appends part h p) (
      run-pieces P event appends parts rest (record h { buffer = h.buffer ++ part }) p
      ∙ ap (λ b. run_callbacks m rest (record h { buffer = b }))
          (append_assoc h.buffer part (concat parts)))

  pub run-urls :
      (parts : List Bytes) (rest : List Event) (h : Connection D)
      → run_callbacks m (pieces url parts rest) h
        ≡ run_callbacks m rest (record h { buffer = h.buffer ++ concat parts })
  unfolding callback
  run-urls parts rest h = run-pieces (λ _. Unit) url (λ part h p. refl) parts rest h tt

  -- A body in pieces, where the body is buffered.
  pub run-bodies :
      (parts : List Bytes) (rest : List Event) (h : Connection D)
      → h.buffer_body ≡ true
      → run_callbacks m (pieces body parts rest) h
        ≡ run_callbacks m rest (record h { buffer = h.buffer ++ concat parts })
  unfolding callback
  run-bodies parts rest h e =
      run-pieces (λ b. b ≡ true) body (λ part h p. if_true _ _ p) parts rest h e

  module _ (fields_ignored : (part : Bytes) (h : Connection D) → m.on_header_field part h ≡ (0, h))
      (values_ignored : (part : Bytes) (h : Connection D) → m.on_header_value part h ≡ (0, h)) where
    run-name :
        (h : Connection D) (rest : List Event)
        → h.buffer_headers ≡ true
        → run_callbacks m (header_field_complete ∷ rest) h
          ≡ run_callbacks m rest (record (store_field h) { buffer = [] })
    unfolding run_callbacks callback
    run-name h rest e =
        rw (fields_ignored h.buffer h)
          (ap (λ k. run_callbacks m rest (record k { buffer = [] })) (if_true (store_field h) h e))

    run-value :
        (h : Connection D) (rest : List Event)
        → h.buffer_headers ≡ true
        → run_callbacks m (header_value_complete ∷ rest) h
          ≡ run_callbacks m rest (record (store_value h) { buffer = [] })
    unfolding run_callbacks callback
    run-value h rest e =
        rw (values_ignored h.buffer h)
          (ap (λ k. run_callbacks m rest (record k { buffer = [] })) (if_true (store_value h) h e))

    -- The pieces of a name, then the header's entry without a value.
    run-names :
        (names : List Bytes) (rest : List Event) (h : Connection D)
        → h.buffer_headers ≡ true
        → h.buffer ≡ []
        → run_callbacks m (pieces header_field names (header_field_complete ∷ rest)) h
          ≡ run_callbacks m rest (add_header (concat names) [] h)
    unfolding callback store_field
    run-names names rest h flag empty =
        run-pieces (λ _. Unit) header_field (λ part k p. refl) names _ h tt
        ∙ ap
            (λ b.
              run_callbacks m (header_field_complete ∷ rest)
                (record h { buffer = b ++ concat names }))
            empty
        ∙ run-name (record h { buffer = concat names }) rest flag

    -- The pieces of a value, written to the entry at `i`.
    run-values :
        (values : List Bytes) (rest : List Event) (h : Connection D) (i : ℕ)
        → h.buffer_headers ≡ true
        → h.buffer ≡ []
        → h.current_header ≡ some i
        → i < length h.headers
        → run_callbacks m (pieces header_value values (header_value_complete ∷ rest)) h
          ≡ run_callbacks m rest
              (record h { buffer = []; headers = set_value i (concat values) h.headers })
    unfolding callback store_value
    run-values values rest h i flag empty at inside =
        run-pieces (λ _. Unit) header_value (λ part k p. refl) values _ h tt
        ∙ ap
            (λ b.
              run_callbacks m (header_value_complete ∷ rest)
                (record h { buffer = b ++ concat values }))
            empty
        ∙ run-value (record h { buffer = concat values }) rest flag
        ∙ ap (λ (k : Connection D). run_callbacks m rest (record k { buffer = [] }))
            (value_written (record h { buffer = concat values }) i at inside)

    run-field :
        (names values : List Bytes) (rest : List Event) (h : Connection D)
        → h.buffer_headers ≡ true
        → h.buffer ≡ []
        → run_callbacks m
            (pieces header_field names
              (header_field_complete ∷ pieces header_value values (header_value_complete ∷ rest)))
            h
          ≡ run_callbacks m rest (add_header (concat names) (concat values) h)
    run-field names values rest h flag empty =
        let key = map to_lower (concat names) in
        run-names names _ h flag empty
        ∙ run-values values rest (add_header (concat names) [] h)
            (emplace_at header_rank key h.headers) flag refl refl
            (emplace_at-lt header_rank key [] h.headers)
        ∙ ap (λ hs. run_callbacks m rest (record (add_header (concat names) [] h) { headers = hs }))
            (set_value-emplace key (concat values) h.headers)

    -- The headers of a message, in any pieces: each is stored, in turn.
    pub run-fields :
        (fields : Fields) (rest : List Event) (h : Connection D)
        → h.buffer_headers ≡ true
        → h.buffer ≡ []
        → run_callbacks m (field_events fields rest) h ≡ run_callbacks m rest (add_headers fields h)
    unfolding field_events add_headers
    run-fields [] rest h flag empty = refl
    run-fields ((names, values) ∷ fields) rest h flag empty =
        run-field names values _ h flag empty
        ∙ run-fields fields rest (add_header (concat names) (concat values) h) flag refl
