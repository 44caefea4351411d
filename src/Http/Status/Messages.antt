-- ===== src/Http/Status/Messages.antt =====
-- What response_status finds in the table of messages.
use mathlib.Core.List.{Memᴰ}
use docker_plugin_cpp.Base.{
  ℕ, ◌+◌, ◌<◌, ◌≡◌, ◌≢◌, refl, sym, ap, ◌∙◌, List, [], ◌∷◌, Bytes, text, true, false, ◌==◌, All,
  arith, if_true, if_false,
}
use docker_plugin_cpp.Http.Status.{http_status_map, find_message, message_for}

-- The statuses go up, so that none is there twice.
abbrev IsAscending : ℕ → List (ℕ × Bytes) → Type 0
IsAscending low [] = Unit
IsAscending low ((code, name) ∷ rest) = (low < code + 1) × IsAscending (code + 1) rest

http_status_map-IsAscending : IsAscending 0 http_status_map
unfolding http_status_map
http_status_map-IsAscending = ground arith

find_message-absent :
    (status : ℕ) (message : Bytes) (table : List (ℕ × Bytes))
    → All (λ (r : ℕ × Bytes). r.0 ≢ status) table
    → find_message status message table ≡ message
unfolding find_message
find_message-absent status message [] h = refl
find_message-absent status message ((code, name) ∷ rest) (h, hs) =
    let test : (code == status) ≡ false = ground arith in
    ap (λ m. find_message status m rest) (if_false _ _ test)
    ∙ find_message-absent status message rest hs

IsAscending-apart :
    (status low : ℕ) (table : List (ℕ × Bytes))
    → status < low
    → IsAscending low table
    → All (λ (r : ℕ × Bytes). r.0 ≢ status) table
IsAscending-apart status low [] lt h = tt
IsAscending-apart status low ((code, name) ∷ rest) lt (h, hs) =
    (λ e. absurd (omega arith), IsAscending-apart status (code + 1) rest (omega arith) hs)

find_message-mem :
    (status low : ℕ) (name message : Bytes) (table : List (ℕ × Bytes))
    → IsAscending low table
    → Memᴰ (status, name) table
    → find_message status message table ≡ name
unfolding find_message
find_message-mem status low name message [] up m = elim m [ ]
find_message-mem status low name message ((code, other) ∷ rest) (h, up) (Memᴰ.head e) =
    let same : status ≡ code = ap (λ (r : ℕ × Bytes). r.0) e in
    let test : (code == status) ≡ true = ground arith in
    ap (λ m. find_message status m rest) (if_true _ _ test)
    ∙ find_message-absent status other rest
        (IsAscending-apart status (code + 1) rest (omega arith) up)
    ∙ sym (ap (λ (r : ℕ × Bytes). r.1) e)
find_message-mem status low name message ((code, other) ∷ rest) (h, up) (Memᴰ.tail m) =
    find_message-mem status (code + 1) name _ rest up m

-- Without a message of its own, a status is sent with the one message that the table has for it,
-- and with OK where the table has none.
pub message_for_lem :
    (status : ℕ)
    → ((name : Bytes) → Memᴰ (status, name) http_status_map → message_for status [] ≡ name)
      × (All (λ (r : ℕ × Bytes). r.0 ≢ status) http_status_map → message_for status [] ≡ text "OK")
unfolding message_for
message_for_lem status = (
  λ name m.
      find_message-mem status 0 name (text "OK") http_status_map http_status_map-IsAscending m,
  λ h. find_message-absent status (text "OK") http_status_map h,
)
