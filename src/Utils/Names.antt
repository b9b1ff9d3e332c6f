-- ===== src/Utils/Names.antt =====
-- The texts of methods and status codes.
use ctask.Common.{◌≡◌, refl}
use ctask.Common.Decimal.{read_decimal}
use ctask.Utils.{HttpStatusCode, http_status_ok, status_value, http_status_code_to_string}

-- The text of a status code reads back, in decimal, as the value of the code.
pub read_decimal-http_status_code_to_string :
    (code : HttpStatusCode) → read_decimal 0 (http_status_code_to_string code) ≡ status_value code
unfolding read_decimal http_status_code_to_string
read_decimal-http_status_code_to_string http_status_ok = refl
read_decimal-http_status_code_to_string _ = refl
