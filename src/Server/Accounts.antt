-- ===== src/Server/Accounts.antt =====
-- The account of open descriptors over what the server does with one connection.
use docker_plugin_cpp.Base.{
  ℕ, ◌+◌, ◌≡◌, refl, ap, ◌∙◌, List, [], ◌∷◌, Option, none, some, Bytes, Bool, true, false, All,
  arith, inl, ◌==◌, if◌then◌else◌, inr, Bool-cases,
}
use docker_plugin_cpp.Logger.{Level, debug}
use docker_plugin_cpp.Server.{
  Received, bytes, failed, Timeval, Environment, Server, is_set, handle_received, handle_fd,
  handle_io, keep_or_destroy, welcome, accepted, accept_connection, serve_fd, serve, is_closed,
  new_message, closed_message, buffer_size,
}

abbrev pub has_fd : Option ℕ → ℕ
has_fd none = 0
has_fd (some _) = 1

-- How often a descriptor is held.
abbrev pub held_fd : ℕ → Option ℕ → ℕ
held_fd d none = 0
held_fd d (some fd) = if fd == d then 1 else 0

module _ {C W : Type 0} (env : Environment C W) (d : ℕ) (gained lost : W → ℕ) where
  open env use {
    select, accept4, recv, close_fd, log, get_fd, close, on_read, destroy, create_connection,
    on_connect, on_disconnect,
  }

  -- From the world w to w', how often the descriptor d is held (how often it was gained, less how
  -- often it was lost) changes from n to m.
  abbrev pub Moves : ℕ → W → ℕ → W → Type 0
  Moves n w m w' = gained w' + lost w + n ≡ gained w + lost w' + m

  -- Whether a connection holds the descriptor d, and whether it holds any.
  abbrev held : C → ℕ
  held c = held_fd d (get_fd c)

  abbrev has : C → ℕ
  has c = has_fd (get_fd c)

  abbrev pub held_all : List C → ℕ
  held_all [] = 0
  held_all (c ∷ cs) = held c + held_all cs

  abbrev pub held_option : Option C → ℕ
  held_option none = 0
  held_option (some c) = held c

  -- `gained` counts how often accept4 or socket gave the descriptor d, and `lost` how often close
  -- was called on it: each call changes them by what it does to the connection that it is given.
  pub record Counts : Type 0 where
    pub select_keeps :
        (n : ℕ) (fds : List ℕ) (t : Timeval) (w : W) → Moves 0 w 0 (select n fds t w).1
    pub accept_adds : (s : ℕ) (w : W) → Moves 0 w (held_fd d (accept4 s w).0) (accept4 s w).1
    pub recv_keeps : (fd n : ℕ) (w : W) → Moves 0 w 0 (recv fd n w).1
    pub close_fd_drops : (fd : ℕ) (w : W) → Moves (held_fd d (some fd)) w 0 (close_fd fd w)
    pub log_keeps : (l : Level) (msg : Bytes) (w : W) → Moves 0 w 0 (log l msg w)
    pub close_drops :
        (c : C) (w : W) → Moves (held c) w 0 (close (c, w)).1 × (get_fd (close (c, w)).0 ≡ none)
    pub on_read_balances :
        (bs : Bytes) (c : C) (w : W)
        → Moves (held c) w (held (on_read bs (c, w)).0) (on_read bs (c, w)).1
    pub destroy_drops : (c : C) (w : W) → Moves (held c) w 0 (destroy (c, w))
    pub create_takes :
        (fd : ℕ) (w : W)
        → Moves 0 w 0 (create_connection fd w).1
          × ((c : C) → (create_connection fd w).0 ≡ some c → get_fd c ≡ some fd)
    pub on_connect_keeps :
        (c : C) (w : W)
        → Moves 0 w 0 (on_connect (c, w)).1 × (get_fd (on_connect (c, w)).0 ≡ get_fd c)
    pub on_disconnect_keeps :
        (c : C) (w : W)
        → Moves 0 w 0 (on_disconnect (c, w)).1 × (get_fd (on_disconnect (c, w)).0 ≡ get_fd c)

  -- A connection and the world before, and after an operation that may have destroyed it.
  abbrev pub Balances : ℕ → W → Option C × W → Type 0
  Balances n w (kept, w') = Moves n w (held_option kept) w'

  abbrev pub IsOpen : Option C → Type 0
  IsOpen none = Unit
  IsOpen (some c) = has c ≡ 1

  -- What handle_io leaves: a connection that it does not give up is open.
  abbrev Handled : ℕ → W → Bool × C × W → Type 0
  Handled n w (closed, c, w') = Moves n w (held c) w' × (closed ≡ false → has c ≡ 1)

  abbrev pub AllOpen : List C → Type 0
  AllOpen = All (λ c. has c ≡ 1)

  -- Each connection of the server holds a descriptor, and of the descriptor d as many are held by
  -- the listening socket and the connections as were gained and not lost.
  pub record Inv (server : Server C) (w : W) : Type 0 where
    pub counted : gained w ≡ lost w + held_fd d (some server.socket) + held_all server.connections
    pub opened : All (λ c. has_fd (env.get_fd c) ≡ 1) server.connections

  module _ (laws : Counts) where
    open laws use {
      select_keeps, accept_adds, recv_keeps, close_fd_drops, log_keeps, close_drops,
      on_read_balances, destroy_drops, create_takes, on_connect_keeps, on_disconnect_keeps,
    }

    has_of_open : (fd : Option ℕ) → is_closed env fd ≡ false → has_fd fd ≡ 1
    has_of_open none h = cc
    has_of_open (some fd) h = refl

    handle_received-Handled :
        (fd : ℕ) (r : Received) (c : C) (w : W)
        → has c ≡ 1
        → Handled (held c) w (handle_received env fd r (c, w))
    unfolding handle_received
    handle_received-Handled fd (bytes []) c w h = (refl, λ e. cc)
    handle_received-Handled fd (bytes (b ∷ bs)) c w h =
        (omega (arith, on_read_balances (b ∷ bs) c _, log_keeps), λ e. has_of_open _ e)
    handle_received-Handled fd (failed true) c w h = (refl, λ e. h)
    handle_received-Handled fd (failed false) c w h =
        (omega (arith, close_drops c w, ap (held_fd d) (close_drops c w).1), λ e. cc)

    handle_fd-Handled :
        (fd : Option ℕ) (c : C) (w : W)
        → fd ≡ get_fd c
        → has c ≡ 1
        → Handled (held c) w (handle_fd env fd (c, w))
    unfolding handle_fd
    handle_fd-Handled none c w e h = absurd (omega (arith, ap has_fd e))
    handle_fd-Handled (some fd) c w e h =
        let (received, w') = recv fd (buffer_size env) w in
        let (balance, opened) = handle_received-Handled fd received c w' h in
        (omega (arith, balance, recv_keeps fd (buffer_size env) w), opened)

    handle_io-Handled : (c : C) (w : W) → has c ≡ 1 → Handled (held c) w (handle_io env (c, w))
    unfolding handle_io
    handle_io-Handled c w h = handle_fd-Handled (get_fd c) c w refl h

    -- A connection that is disconnected and destroyed gives its descriptor back.
    depart-drops :
        (message : Bytes) (c : C) (w : W)
        → Moves (held c) w 0 (destroy (on_disconnect (c, log debug message w)))
    depart-drops message c w =
        let logged = log debug message w in
        let left = on_disconnect (c, logged) in
        omega (
          arith,
          destroy_drops left.0 left.1,
          on_disconnect_keeps c logged,
          ap (held_fd d) (on_disconnect_keeps c logged).1,
          log_keeps debug message w,
        )

    keep_or_destroy-Balances :
        (fd n : ℕ) (w : W) (r : Bool × C × W)
        → Handled n w r
        → Balances n w (keep_or_destroy env fd r) × IsOpen (keep_or_destroy env fd r).0
    unfolding keep_or_destroy
    keep_or_destroy-Balances fd n w (true, c, w') (h, _) =
        let gone = depart-drops (closed_message env fd) c w' in (omega arith, tt)
    keep_or_destroy-Balances fd n w (false, c, w') (h, opened) = (h, opened refl)

    -- A connection, if it was created, holds the descriptor.
    abbrev Made : ℕ → Option C → Type 0
    Made fd none = Unit
    Made fd (some c) = get_fd c ≡ some fd

    -- A connection that was accepted is counted from then on, if it is kept.
    welcome-Balances :
        (fd : ℕ) (made : Option C) (w : W)
        → Made fd made
        → Balances (held_fd d (some fd)) w (welcome env fd (made, w))
          × IsOpen (welcome env fd (made, w)).0
    unfolding welcome
    welcome-Balances fd none w h = (omega (arith, close_fd_drops fd w), tt)
    welcome-Balances fd (some c) w h =
        let met = on_connect (c, w) in
        let logged = log debug (new_message env fd) met.1 in
        let (same, still) = on_connect_keeps c w in
        let handled = handle_io-Handled met.0 logged (ap has_fd (still ∙ h)) in
        let (balance, opened) = keep_or_destroy-Balances fd (held met.0) logged _ handled in
        (
          omega (arith, log_keeps debug (new_message env fd) met.1, ap (held_fd d) (still ∙ h)),
          opened,
        )

    created-Made :
        (fd : ℕ) (made : Option C) → ((c : C) → made ≡ some c → get_fd c ≡ some fd) → Made fd made
    created-Made fd none h = tt
    created-Made fd (some c) h = h c refl

    -- From the call of accept4 on, the listening socket's part of run loses no descriptor.
    pub accept_connection-Balances :
        (s : ℕ) (w : W)
        → Balances 0 w (accept_connection env s w) × IsOpen (accept_connection env s w).0
    unfolding accept_connection
    accept_connection-Balances s w = go (accept4 s w).0 (accept4 s w).1 (accept_adds s w)
      where
        created :
            (fd : ℕ) (r : Option C × W) (w' : W)
            → Moves 0 w' 0 r.1
            → Made fd r.0
            → Moves 0 w (held_fd d (some fd)) w'
            → Balances 0 w (welcome env fd r) × IsOpen (welcome env fd r).0
        created fd (made, w'') w' e o f =
            let (balance, opened) = welcome-Balances fd made w'' o in (omega arith, opened)

        go :
            (fd : Option ℕ) (w' : W)
            → Moves 0 w (held_fd d fd) w'
            → Balances 0 w (accepted env (fd, w')) × IsOpen (accepted env (fd, w')).0
        go none w' e = (omega arith, tt)
        go (some fd) w' e =
            let (same, opened) = create_takes fd w' in
            created fd (create_connection fd w') w' same (created-Made fd _ opened) e

    pub serve-Balances :
        (set : List ℕ) (c : C) (w : W)
        → has c ≡ 1
        → Balances (held c) w (serve env set (c, w)) × IsOpen (serve env set (c, w)).0
    unfolding serve
    serve-Balances set c w h = go (get_fd c) h
      where
        go :
            (fd : Option ℕ)
            → has_fd fd ≡ 1
            → Balances (held c) w (serve_fd env set fd (c, w))
              × IsOpen (serve_fd env set fd (c, w)).0
        go none e = absurd (omega arith)
        go (some fd) e = elim (Bool-cases (is_set fd set)) [
          | inl there ↦ rw there (
              let (balance, opened) =
                keep_or_destroy-Balances fd (held c) w _ (handle_io-Handled c w h) in
              (omega arith, opened))
          | inr missing ↦ rw missing (omega arith, h)
        ]
