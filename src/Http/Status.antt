-- ===== src/Http/Status.antt =====
-- http_status_map, and the message that response_status finds in it.
pub mod Messages
use docker_plugin_cpp.Base.{ℕ, List, [], ◌∷◌, Bytes, text, ◌==◌, is_empty, if◌then◌else◌}

unfoldable pub http_status_map : List (ℕ × Bytes)
http_status_map =
    (100, text "Continue")
    ∷ (101, text "Switching Protocols")
    ∷ (102, text "Processing")
    ∷ (200, text "OK")
    ∷ (201, text "Created")
    ∷ (202, text "Accepted")
    ∷ (203, text "Non-authoritative Information")
    ∷ (204, text "No Content")
    ∷ (205, text "Reset Content")
    ∷ (206, text "Partial Content")
    ∷ (207, text "Multi-Status")
    ∷ (208, text "Already Reported")
    ∷ (226, text "IM Used")
    ∷ (300, text "Multiple Choices")
    ∷ (301, text "Moved Permanently")
    ∷ (302, text "Found")
    ∷ (303, text "See Other")
    ∷ (304, text "Not Modified")
    ∷ (305, text "Use Proxy")
    ∷ (307, text "Temporary Redirect")
    ∷ (308, text "Permanent Redirect")
    ∷ (400, text "Bad Request")
    ∷ (401, text "Unauthorized")
    ∷ (402, text "Payment Required")
    ∷ (403, text "Forbidden")
    ∷ (404, text "Not Found")
    ∷ (405, text "Method Not Allowed")
    ∷ (406, text "Not Acceptable")
    ∷ (407, text "Proxy Authentication Required")
    ∷ (408, text "Request Timeout")
    ∷ (409, text "Conflict")
    ∷ (410, text "Gone")
    ∷ (411, text "Length Required")
    ∷ (412, text "Precondition Failed")
    ∷ (413, text "Payload Too Large")
    ∷ (414, text "Request-URI Too Long")
    ∷ (415, text "Unsupported Media Type")
    ∷ (416, text "Requested Range Not Satisfiable")
    ∷ (417, text "Expectation Failed")
    ∷ (418, text "I'm a teapot")
    ∷ (421, text "Misdirected Request")
    ∷ (422, text "Unprocessable Entity")
    ∷ (423, text "Locked")
    ∷ (424, text "Failed Dependency")
    ∷ (426, text "Upgrade Required")
    ∷ (428, text "Precondition Required")
    ∷ (429, text "Too Many Requests")
    ∷ (431, text "Request Header Fields Too Large")
    ∷ (444, text "Connection Closed Without Response")
    ∷ (451, text "Unavailable For Legal Reasons")
    ∷ (499, text "Client Closed Request")
    ∷ (500, text "Internal Server Error")
    ∷ (501, text "Not Implemented")
    ∷ (502, text "Bad Gateway")
    ∷ (503, text "Service Unavailable")
    ∷ (504, text "Gateway Timeout")
    ∷ (505, text "HTTP Version Not Supported")
    ∷ (506, text "Variant Also Negotiates")
    ∷ (507, text "Insufficient Storage")
    ∷ (508, text "Loop Detected")
    ∷ (510, text "Not Extended")
    ∷ (511, text "Network Authentication Required")
    ∷ (599, text "Network Connect Timeout Error")
    ∷ []

-- The loop of response_status: a later entry of the same status replaces an earlier one.
unfoldable pub find_message : ℕ → Bytes → List (ℕ × Bytes) → Bytes
find_message status message [] = message
find_message status message ((code, name) ∷ rest) =
    find_message status (if code == status then name else message) rest

unfoldable pub message_for : ℕ → Bytes → Bytes
message_for status msg =
    if is_empty msg then find_message status (text "OK") http_status_map else msg
