-- ===== src/Http.antt =====
-- ovirt_imageio/_internal/http.py: status codes, range headers and the bodies of requests.
pub mod Ranges
pub mod Body
use ovirt_imageio.Base.{ℕ}

abbrev pub no_content : ℕ
no_content = 204

abbrev pub bad_request : ℕ
bad_request = 400

abbrev pub not_found : ℕ
not_found = 404

abbrev pub requested_range_not_satisfiable : ℕ
requested_range_not_satisfiable = 416
