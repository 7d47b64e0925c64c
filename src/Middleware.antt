-- ===== src/Middleware.antt =====
-- api/app/core/middleware/: the client's address for the rate limit, the request id, and the responses
-- to exceptions. slowapi counts the requests of an address; that is not modelled.
pub mod Proxies
use proyecto_1_back.Prelude.{
  ℕ, zero, suc, ◌-◌, Bool, Option, none, some, List, [], ◌∷◌, map, filter, not, length, drop,
  if◌then◌else◌,
}
use proyecto_1_back.Http.{Exc, http, Detail, message}
use proyecto_1_back.Text.{Text}
use proyecto_1_back.Text.Words.{trim, split, is_empty}
use Prim.Native.String.{String}

-- `[p.strip() for p in xff.split(",") if p.strip()]`
unfoldable pub parts : Text → List Text
unfolding trim split
parts xff = map trim (filter (λ p. not (is_empty (trim p))) (split 44 xff))

abbrev pub head_or : Text → List Text → Text
head_or default [] = default
head_or default (p ∷ ps) = p

-- `x-forwarded-for`, when it is sent and not empty
abbrev pub forwarded : ℕ → Option Text → Text → Text
forwarded trusted_proxies none remote = remote
forwarded trusted_proxies (some []) remote = remote
forwarded trusted_proxies (some (c ∷ s)) remote =
    let ps = parts (c ∷ s) in head_or remote (drop (length ps - trusted_proxies) ps)

-- `_client_ip`, with the header and `get_remote_address(request)`. An index at the end of the list,
-- for no trusted proxies, is not reached.
unfoldable pub client_ip : ℕ → Option Text → Text → Text
unfolding parts
client_ip zero xff remote = remote
client_ip (suc n) xff remote = forwarded (suc n) xff remote

-- `request.headers.get("X-Request-Id", str(uuid.uuid4()))`
unfoldable pub request_id : Option Text → Text → Text
request_id none generated = generated
request_id (some sent) generated = sent

-- the response to an exception: `detail` is the one of an HTTPException, or a word
pub record ErrorResponse : Type 0 where
  pub status_code : ℕ
  pub detail : Detail
  pub shown : String
  pub id : Text

-- `exc.detail if isinstance(exc.detail, str) else "An error occurred"`
abbrev pub shown_detail : Detail → String
shown_detail (message m) = m
shown_detail _ = "An error occurred"

unfoldable pub http_exception_handler : Text → ℕ → Detail → ErrorResponse
http_exception_handler id status_code detail = record {
  status_code = status_code;
  detail = detail;
  shown = shown_detail detail;
  id = id;
}

unfoldable pub rate_limit_exception_handler : Text → ErrorResponse
rate_limit_exception_handler id = record {
  status_code = 429;
  detail = message "rate_limit_exceeded";
  shown = "Too many requests. Please try again later.";
  id = id;
}

unfoldable pub general_exception_handler : Text → ErrorResponse
general_exception_handler id = record {
  status_code = 500;
  detail = message "internal_server_error";
  shown = "An internal server error occurred";
  id = id;
}

-- The handler that the app registers for an exception of a route.
unfoldable pub handled : Text → Exc → ErrorResponse
unfolding http_exception_handler general_exception_handler
handled id (http status_code detail) = http_exception_handler id status_code detail
handled id _ = general_exception_handler id
