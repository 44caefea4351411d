-- ===== src/Channel/Writing.antt =====
-- What a write puts on the wire.
use mathlib.Core.Path.{subst}
use docker_plugin_cpp.Base.{
  ℕ, zero, suc, ◌+◌, ◌<◌, ◌≡◌, refl, sym, ap, ◌∙◌, ◌≢◌, ◌⊎◌, inl, inr, ◌++◌, List, [], ◌∷◌, Option,
  none, some, Bytes, Bool, true, false, arith, length, take, drop, All, append-nil, append_assoc,
  length-drop, take-append-drop, if◌then◌else◌,
}
use docker_plugin_cpp.Channel.{write_open, Channel, size_max, send_all, write, write_socket}

-- No call of `send` fails.
abbrev pub NoFailure : Channel → Type 0
NoFailure c = All (λ a. a ≢ none) c.answers

-- Bytes that go out one after the other.
send_all-complete :
    (answers : List (Option ℕ)) (bytes sent : Bytes)
    → All (λ a. a ≢ none) answers
    → (send_all answers bytes sent).complete ≡ true
unfolding send_all
send_all-complete answers [] sent h = refl
send_all-complete [] (b ∷ rest) sent h = refl
send_all-complete (none ∷ answers) (b ∷ rest) sent h = absurd (h.0 refl)
send_all-complete (some n ∷ answers) (b ∷ rest) sent h =
    send_all-complete answers (drop n (b ∷ rest)) (sent ++ take n (b ∷ rest)) h.1

send_all-NoFailure :
    (answers : List (Option ℕ)) (bytes sent : Bytes)
    → All (λ a. a ≢ none) answers
    → All (λ a. a ≢ none) (send_all answers bytes sent).answers
unfolding send_all
send_all-NoFailure answers [] sent h = h
send_all-NoFailure [] (b ∷ rest) sent h = tt
send_all-NoFailure (none ∷ answers) (b ∷ rest) sent h = h.1
send_all-NoFailure (some n ∷ answers) (b ∷ rest) sent h =
    send_all-NoFailure answers (drop n (b ∷ rest)) (sent ++ take n (b ∷ rest)) h.1

-- What is on the wire when the loop ends: everything, or a part that a failure cut short.
abbrev pub Outcome : Bytes → Bytes → Bool → Bytes → Type 0
Outcome before bytes true after = after ≡ before ++ bytes
Outcome before bytes false after = (n : ℕ) × (n < length bytes) × (after ≡ before ++ take n bytes)

take-nil : (n : ℕ) → take {A = ℕ} n [] ≡ []
take-nil zero = refl
take-nil (suc n) = refl

take-drop : (n m k : ℕ) (xs : Bytes) → k ≡ n + m → take n xs ++ take m (drop n xs) ≡ take k xs
take-drop zero m k xs e = ap (λ j. take j xs) (omega arith)
take-drop (suc n) m k [] e = take-nil m ∙ sym (take-nil k)
take-drop (suc n) m zero (x ∷ xs) e = absurd (omega arith)
take-drop (suc n) m (suc k) (x ∷ xs) e = ap (◌∷◌ x) (take-drop n m k xs (omega arith))

-- A part that went out, and then the outcome of the rest.
Outcome-drop :
    (n : ℕ) (bytes before after : Bytes) (complete : Bool)
    → Outcome (before ++ take n bytes) (drop n bytes) complete after
    → Outcome before bytes complete after
Outcome-drop n bytes before after true h =
    h ∙ append_assoc before _ _ ∙ ap (◌++◌ before) (take-append-drop n bytes)
Outcome-drop n bytes before after false (k, lt, h) = (
  n + k,
  omega (arith, length-drop n bytes),
  h ∙ append_assoc before _ _ ∙ ap (◌++◌ before) (take-drop n k (n + k) bytes refl),
)

-- The loop of `write` sends everything, or a part up to the call that failed.
send_all-Outcome :
    (answers : List (Option ℕ)) (bytes sent : Bytes)
    → let s = send_all answers bytes sent in Outcome sent bytes s.complete s.sent
unfolding send_all
send_all-Outcome answers [] sent = sym (append-nil sent)
send_all-Outcome [] (b ∷ rest) sent = refl
send_all-Outcome (none ∷ answers) (b ∷ rest) sent = (0, omega arith, sym (append-nil sent))
send_all-Outcome (some n ∷ answers) (b ∷ rest) sent =
    Outcome-drop n (b ∷ rest) sent _ _
      (send_all-Outcome answers (drop n (b ∷ rest)) (sent ++ take n (b ∷ rest)))

-- The result of `write` at the end of its loop.
result_of_Outcome :
    (bytes before after : Bytes) (complete : Bool)
    → Outcome before bytes complete after
    → let r = (if complete then length bytes else size_max) in
      ((r ≡ length bytes) × (after ≡ before ++ bytes))
      ⊎ ((r ≡ size_max) × ((n : ℕ) × (n < length bytes) × (after ≡ before ++ take n bytes)))
result_of_Outcome bytes before after true h = inl (refl, h)
result_of_Outcome bytes before after false h = inr (refl, h)

-- On an open socket a write returns the length and has put all bytes on the wire, or returns
-- SIZE_MAX and has put there a proper prefix.
pub write-Outcome :
    (bytes : Bytes) (c : Channel) (fd : ℕ)
    → c.socket ≡ some fd
    → let (r, c') = write bytes c in
      ((r ≡ length bytes) × (c'.sent ≡ c.sent ++ bytes))
      ⊎ ((r ≡ size_max) × ((n : ℕ) × (n < length bytes) × (c'.sent ≡ c.sent ++ take n bytes)))
unfolding write
write-Outcome bytes c fd e =
    rw (e, write_socket) (result_of_Outcome bytes _ _ _ (send_all-Outcome c.answers bytes c.sent))

-- A write on a closed socket changes nothing.
pub write-closed : (bytes : Bytes) (c : Channel) → c.socket ≡ none → write bytes c ≡ (size_max, c)
unfolding write
write-closed bytes c e = ground arith

-- A write leaves the socket as it is.
pub write-socket : (bytes : Bytes) (c : Channel) → (write bytes c).1.socket ≡ c.socket
unfolding write write_socket write_open
write-socket bytes c = ground arith

-- Where no call fails everything goes out, and the connection stays so.
pub record Delivers (bytes : Bytes) (c c' : Channel) : Type 0 where
  pub sent : c'.sent ≡ c.sent ++ bytes
  pub socket : c'.socket ≡ c.socket
  pub closed : c'.closed ≡ c.closed
  pub logger : c'.logger ≡ c.logger
  pub working : NoFailure c'

pub write-Delivers :
    (bytes : Bytes) (c : Channel) (fd : ℕ)
    → c.socket ≡ some fd
    → NoFailure c
    → Delivers bytes c (write bytes c).1
unfolding write
write-Delivers bytes c fd e h =
    rw (e, write_socket)
      (record {
        sent =
            subst (λ b. Outcome c.sent bytes b (send_all c.answers bytes c.sent).sent)
              (send_all-complete c.answers bytes c.sent h)
              (send_all-Outcome c.answers bytes c.sent);
        socket = refl;
        closed = refl;
        logger = refl;
        working = send_all-NoFailure c.answers bytes c.sent h;
      })

pub Delivers-refl : (c : Channel) → NoFailure c → Delivers [] c c
Delivers-refl c h = record {
  sent = sym (append-nil c.sent);
  socket = refl;
  closed = refl;
  logger = refl;
  working = h;
}

pub Delivers-trans :
    {xs ys : Bytes} {a b c : Channel} → Delivers xs a b → Delivers ys b c → Delivers (xs ++ ys) a c
Delivers-trans {xs} {ys} {a} {b} {c} d e = record {
  sent = e.sent ∙ ap (λ s. s ++ ys) d.sent ∙ append_assoc a.sent xs ys;
  socket = e.socket ∙ d.socket;
  closed = e.closed ∙ d.closed;
  logger = e.logger ∙ d.logger;
  working = e.working;
}
