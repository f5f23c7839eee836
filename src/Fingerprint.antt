-- ===== src/Fingerprint.antt =====
-- utils/certificate_fingerprint.py
use pyadcs_connector.Prelude.{◌≡◌}
use pyadcs_connector.Text.{Text}
use pyadcs_connector.Text.Utf8.{Bytes, encode}
use pyadcs_connector.Text.Utf8.Injective.{encode_injective}

-- SHA-256 is an argument.
unfoldable pub certificate_fingerprint : (Bytes → Text) → Text → Text
certificate_fingerprint sha256_hexdigest base64content = sha256_hexdigest (encode base64content)

-- Where SHA-256 tells all bytes apart, the fingerprint tells all texts apart.
pub fingerprint_apart :
    (sha256_hexdigest : Bytes → Text)
    → ((b c : Bytes) → sha256_hexdigest b ≡ sha256_hexdigest c → b ≡ c)
    → (s t : Text)
    → certificate_fingerprint sha256_hexdigest s ≡ certificate_fingerprint sha256_hexdigest t
    → s ≡ t
unfolding certificate_fingerprint
fingerprint_apart sha256_hexdigest apart s t h =
    encode_injective s t (apart (encode s) (encode t) h)
