-- ===== src/Health.antt =====
-- crates/watchdog/src/gateway_health_codec.rs: the authentication tags of the gateway's health
-- contract. Texts that the wire carries are lists of their bytes; HMAC-SHA256 is an argument, a
-- function from a key and a message to a tag.
pub mod Tags
pub mod Tests
use ascension_watchdog.Prelude.{
  ℕ, ◌+◌, ◌-◌, ◌*◌, ◌/◌, ◌%◌, Bool, true, false, ◌&&◌, ◌||◌, not, String, Option, none, some, List,
  [], ◌∷◌, ◌++◌,
}
use ascension_watchdog.Prelude.Tests.{ltb, leb, ◌==◌, if◌then◌else◌}
use ascension_watchdog.Prelude.Lists.{length}
use ascension_watchdog.Prelude.Word.{u32_max}
use ascension_watchdog.Prelude.Text.{as_bytes}

pub data HealthError : Type 0 where
  configuration deadline bounds transport framing authentication identity schema sequence
        unavailable :
      HealthError

-- `Result<A, HealthError>`
pub data Checked {ℓ} (A : Type ℓ) : Type ℓ where
  pass : A → Checked A
  fail : HealthError → Checked A

abbrev pub and_then {ℓ κ} : {A : Type ℓ} {B : Type κ} → Checked A → (A → Checked B) → Checked B
and_then (pass a) f = f a
and_then (fail e) f = fail e

abbrev pub max_body_bytes : ℕ
max_body_bytes = 131072

-- `to_be_bytes` of a `u16`, a `u32` and a `u64`.
abbrev pub be_u16 : ℕ → List ℕ
be_u16 n = n / 256 % 256 ∷ n % 256 ∷ []

abbrev pub be_u32 : ℕ → List ℕ
be_u32 n = n / 16777216 % 256 ∷ n / 65536 % 256 ∷ n / 256 % 256 ∷ n % 256 ∷ []

abbrev pub be_u64 : ℕ → List ℕ
be_u64 n = be_u32 (n / 4294967296) ++ be_u32 n

-- What `field` feeds to the MAC.
unfoldable pub field : List ℕ → Checked (List ℕ)
field value =
    if leb (length value) u32_max then pass (be_u32 (length value) ++ value) else fail bounds

-- What `start` feeds to the MAC after the key.
unfoldable pub start : List ℕ → List ℕ → Checked (List ℕ)
unfolding field
start domain challenge = and_then (field (as_bytes "GET")) (λ get.
    and_then (field (as_bytes "/health/status/v1"))
      (λ path. and_then (field challenge) (λ framed. pass (domain ++ 0 ∷ get ++ path ++ framed))))

-- A digit's code, `DIGITS[n]`.
unfoldable pub hex_digit : ℕ → ℕ
hex_digit n = if ltb n 10 then 48 + n else 87 + n

unfoldable pub hex : List ℕ → List ℕ
unfolding hex_digit
hex [] = []
hex (byte ∷ bytes) = hex_digit (byte / 16) ∷ hex_digit (byte % 16) ∷ hex bytes

unfoldable pub digit : ℕ → Checked ℕ
digit byte =
    if leb 48 byte && leb byte 57
    then pass (byte - 48)
    else if leb 97 byte && leb byte 102
    then pass (byte - 97 + 10)
    else fail authentication

-- The chunks of two digits; a header of 64 bytes leaves none over.
unfoldable pub decode_digits : List ℕ → Checked (List ℕ)
unfolding digit
decode_digits [] = pass []
decode_digits (high ∷ []) = pass []
decode_digits (high ∷ low ∷ rest) = and_then (digit high) (λ h.
    and_then (digit low)
      (λ l. and_then (decode_digits rest) (λ bytes. pass ((h * 16 + l) ∷ bytes))))

unfoldable pub decode_tag : List ℕ → Checked (List ℕ)
unfolding decode_digits
decode_tag header = if not (length header == 64) then fail authentication else decode_digits header

-- `verify_slice`
abbrev pub same_bytes : List ℕ → List ℕ → Bool
same_bytes [] [] = true
same_bytes [] (y ∷ ys) = false
same_bytes (x ∷ xs) [] = false
same_bytes (x ∷ xs) (y ∷ ys) = x == y && same_bytes xs ys

module _ (hmac : List ℕ → List ℕ → List ℕ) where
  unfoldable pub request_tag : List ℕ → List ℕ → List ℕ → ℕ → Checked (List ℕ)
  unfolding start hex
  request_tag key challenge nonce number =
      if number == 0
      then fail sequence
      else and_then (start (as_bytes "sts2-gateway-health-request-v1") challenge)
          (λ message. pass (hex (hmac key (message ++ nonce ++ be_u64 number))))

  unfoldable pub verify_response : List ℕ → List ℕ → ℕ → List ℕ → List ℕ → Checked (Unit {0})
  unfolding start decode_tag field
  verify_response key challenge status body header =
      if ltb max_body_bytes (length body) || not (status == 200 || status == 503)
      then fail bounds
      else and_then (decode_tag header) (λ tag.
        and_then (start (as_bytes "sts2-gateway-health-attestation-v1") challenge) (λ message.
          and_then (field body) (λ framed.
            if same_bytes (hmac key (message ++ be_u16 status ++ framed)) tag
            then pass tt
            else fail authentication)))
