-- ===== src/Health/Tests.antt =====
-- Tags at concrete inputs. The stand-in for the MAC counts the bytes of the message.
use ascension_watchdog.Prelude.{
  ℕ, zero, suc, ◌%◌, ◌≤◌, ◌<◌, ◌≡◌, ◌↔◌, ◌⊎◌, refl, List, [], ◌∷◌, arith,
}
use ascension_watchdog.Prelude.Lists.{length, All}
use ascension_watchdog.Health.{pass, max_body_bytes, hex, decode_tag, request_tag, verify_response}
use ascension_watchdog.Health.Tags.{
  IsByte, attestation, request, decode_tag_iff, verify_response_iff, request_tag-decode,
}

abbrev repeat : ℕ → ℕ → List ℕ
repeat zero n = []
repeat (suc k) n = n ∷ repeat k n

abbrev block : ℕ → List ℕ
block n = repeat 32 n

abbrev healthy : ℕ
healthy = 200

abbrev empty_object : List ℕ
empty_object = 123 ∷ 125 ∷ []

abbrev counting : List ℕ → List ℕ → List ℕ
counting key message = block (length message % 256)

repeat_bytes : (k n : ℕ) → n < 256 → All IsByte (repeat k n)
repeat_bytes zero n b = tt
repeat_bytes (suc k) n b = (b, repeat_bytes k n b)

block_bytes : (n : ℕ) → n < 256 → All IsByte (block n)
block_bytes n b = repeat_bytes 32 n b

counting-long : (message : List ℕ) → length (counting [] message) ≡ 32
counting-long message = refl

counting-bytes : (message : List ℕ) → All IsByte (counting [] message)
counting-bytes message = block_bytes (length message % 256) (omega arith)

hex_small : hex (0 ∷ 171 ∷ 255 ∷ []) ≡ 48 ∷ 48 ∷ 97 ∷ 98 ∷ 102 ∷ 102 ∷ []
unfolding hex
hex_small = refl

decode_tag_iff_example :
    (decode_tag (hex (block 171)) ≡ pass (block 171)) ↔ (hex (block 171) ≡ hex (block 171))
decode_tag_iff_example =
    decode_tag_iff (block 171) (hex (block 171)) refl (block_bytes 171 (omega arith))

verify_response_iff_example :
    (verify_response counting [] (block 17) healthy empty_object (hex (block 108)) ≡ pass tt) ↔ (
      (length empty_object ≤ max_body_bytes)
      × ((healthy ≡ 200) ⊎ (healthy ≡ 503))
      × (hex (block 108) ≡ hex (counting [] (attestation (block 17) healthy empty_object))))
verify_response_iff_example =
    verify_response_iff counting [] (block 17) healthy empty_object (hex (block 108)) refl
      counting-long counting-bytes

request_tag-decode_example :
    (header : List ℕ) × (request_tag counting [] (block 17) (repeat 16 3) 1 ≡ pass header)
    × (length header ≡ 64)
    × (decode_tag header ≡ pass (counting [] (request (block 17) (repeat 16 3) 1)))
request_tag-decode_example =
    request_tag-decode counting [] (block 17) (repeat 16 3) 1 refl counting-long counting-bytes
      (omega arith)
