-- ===== src/Health/Tags.antt =====
-- Tags in hexadecimal, and exactly which responses are accepted.
use ascension_watchdog.Prelude.{
  ℕ, ◌+◌, ◌-◌, ◌*◌, ◌/◌, ◌%◌, ◌≤◌, ◌<◌, ◌≡◌, ◌↔◌, ◌⊎◌, refl, sym, ap, ◌∙◌, Bool, true, false, ◌||◌,
  not, List, [], ◌∷◌, ◌++◌, arith, inl, inr,
}
use ascension_watchdog.Prelude.Tests.{ltb, le→leb, ◌==◌, Bool-cases, if◌then◌else◌}
use ascension_watchdog.Prelude.Lists.{length, All}
use ascension_watchdog.Prelude.Word.{u32_max}
use ascension_watchdog.Prelude.Text.{as_bytes}
use ascension_watchdog.Health.{
  Checked, pass, fail, and_then, authentication, max_body_bytes, be_u16, be_u32, be_u64, field,
  start, hex_digit, hex, digit, decode_digits, decode_tag, same_bytes, request_tag, verify_response,
}

digit-hex_digit : (n : ℕ) → n < 16 → digit (hex_digit n) ≡ pass n
unfolding digit hex_digit
digit-hex_digit n h = ground arith

hex_digit-digit : (b : ℕ) {n : ℕ} → digit b ≡ pass n → (b ≡ hex_digit n) × (n < 16)
unfolding digit hex_digit
hex_digit-digit b h = ground arith

abbrev pub IsByte : ℕ → Type 0
IsByte b = b < 256

length-hex : (bytes : List ℕ) → length (hex bytes) ≡ length bytes + length bytes
unfolding hex
length-hex [] = refl
length-hex (b ∷ bytes) = omega (arith, length-hex bytes)

decode-hex : (bytes : List ℕ) → All IsByte bytes → decode_digits (hex bytes) ≡ pass bytes
unfolding decode_digits hex
decode-hex [] h = refl
decode-hex (b ∷ bytes) h =
    let byte = h.0 in
    let whole : b / 16 * 16 + b % 16 ≡ b = omega arith in
    rw
      (
        digit-hex_digit (b / 16) (omega (arith, byte)),
        digit-hex_digit (b % 16) (omega arith),
        decode-hex bytes h.1,
        whole,
      )
      refl

and_then-eq :
    {A : Type 0} {B : Type 0} (m : Checked A) (f : A → Checked B) {b : B}
    → and_then m f ≡ pass b
    → (a : A) × (m ≡ pass a) × (f a ≡ pass b)
and_then-eq (pass a) f h = (a, refl, h)
and_then-eq (fail e) f h = cc h

digits_back :
    (x y : ℕ) (more : List ℕ)
    → x < 16
    → y < 16
    → hex ((x * 16 + y) ∷ more) ≡ hex_digit x ∷ hex_digit y ∷ hex more
unfolding hex
digits_back x y more hx hy =
    let high : (x * 16 + y) / 16 ≡ x = omega (arith, hx, hy) in
    let low : (x * 16 + y) % 16 ≡ y = omega (arith, hx, hy) in rw (high, low) refl

digits_join :
    (a b x y : ℕ) (rest more bytes : List ℕ)
    → a ≡ hex_digit x
    → b ≡ hex_digit y
    → rest ≡ hex more
    → x < 16
    → y < 16
    → (x * 16 + y) ∷ more ≡ bytes
    → a ∷ b ∷ rest ≡ hex bytes
digits_join a b x y rest more bytes is_a is_b tail_is hx hy is =
    rw (is_a, is_b, tail_is) (sym (digits_back x y more hx hy) ∙ ap hex is)

decode_digits-hex :
    (k : ℕ) (header : List ℕ) {bytes : List ℕ}
    → length header ≡ k + k
    → decode_digits header ≡ pass bytes
    → header ≡ hex bytes
unfolding decode_digits hex
decode_digits-hex k [] {bytes = bytes} even h = let is : [] ≡ bytes = cc h in ap hex is
decode_digits-hex k (a ∷ []) even h = absurd (omega (arith, even))
decode_digits-hex k (a ∷ b ∷ rest) {bytes = bytes} even h =
    let (x, dx, h1) = and_then-eq (digit a) _ h in
    let (y, dy, h2) = and_then-eq (digit b) _ h1 in
    let (more, dm, h3) = and_then-eq (decode_digits rest) _ h2 in
    let (is_a, small_x) = hex_digit-digit a dx in
    let (is_b, small_y) = hex_digit-digit b dy in
    let tail_is = decode_digits-hex (k - 1) rest (omega (arith, even)) dm in
    let is : (x * 16 + y) ∷ more ≡ bytes = cc h3 in
    digits_join a b x y rest more bytes is_a is_b tail_is small_x small_y is

same_bytes-eq : (xs ys : List ℕ) → same_bytes xs ys ≡ true → xs ≡ ys
same_bytes-eq [] [] h = refl
same_bytes-eq [] (y ∷ ys) h = cc h
same_bytes-eq (x ∷ xs) [] h = cc h
same_bytes-eq (x ∷ xs) (y ∷ ys) h = ground (arith, same_bytes-eq xs ys)

same_bytes_self : (xs : List ℕ) → same_bytes xs xs ≡ true
same_bytes_self [] = refl
same_bytes_self (x ∷ xs) = ground (arith, same_bytes_self xs)

of_64 : {n : ℕ} → (n == 64) ≡ true → n ≡ 64
of_64 {n} h = ground arith

sixty_four : (n : ℕ) → n ≡ 64 → (n == 64) ≡ true
sixty_four n h = ground arith

-- A tag of 32 bytes has exactly one header: the lowercase hexadecimal text of its bytes.
pub decode_tag_iff :
    (tag header : List ℕ)
    → length tag ≡ 32
    → All IsByte tag
    → (decode_tag header ≡ pass tag) ↔ (header ≡ hex tag)
unfolding decode_tag
decode_tag_iff tag header long bytes = (
  λ h. elim (Bool-cases (length header == 64)) [
    | inl e ↦ decode_digits-hex 32 header (of_64 e) (rw e at h)
    | inr n ↦ cc (rw n at h)
  ],
  λ e.
      let size = length-hex tag in
      rw e (rw (sixty_four (length (hex tag)) (omega (arith, size, long))) (decode-hex tag bytes)),
)

abbrev attestation_domain : List ℕ
attestation_domain = as_bytes "sts2-gateway-health-attestation-v1"

-- What a tag under a domain starts with.
abbrev preamble : List ℕ → List ℕ → List ℕ
preamble domain challenge =
    domain
    ++ 0 ∷ (be_u32 3 ++ as_bytes "GET")
    ++ (be_u32 17 ++ as_bytes "/health/status/v1")
    ++ (be_u32 (length challenge) ++ challenge)

-- The message that a response's tag is to authenticate.
abbrev pub attestation : List ℕ → ℕ → List ℕ → List ℕ
attestation challenge status body =
    preamble attestation_domain challenge ++ be_u16 status ++ (be_u32 (length body) ++ body)

field-pass :
    (value : List ℕ) → length value ≤ u32_max → field value ≡ pass (be_u32 (length value) ++ value)
unfolding field
field-pass value h = ground (arith, h)

start-pass :
    (domain challenge : List ℕ)
    → length challenge ≤ u32_max
    → start domain challenge ≡ pass (preamble domain challenge)
unfolding start
start-pass domain challenge h = rw (le→leb (length challenge) u32_max h) refl

pass-inj : {A : Type 0} {a b : A} → ◌≡◌ {A = Checked A} (pass a) (pass b) → a ≡ b
pass-inj h = cc h

-- The test before the tag is looked at.
abbrev rejects : ℕ → List ℕ → Bool
rejects status body = ltb max_body_bytes (length body) || not (status == 200 || status == 503)

rejects_not :
    (status : ℕ) (body : List ℕ)
    → rejects status body ≡ false
    → (length body ≤ max_body_bytes) × ((status ≡ 200) ⊎ (status ≡ 503))
rejects_not status body h = elim (Bool-cases (status == 200)) [
  | inl e ↦ (ground arith, inl (ground arith))
  | inr n ↦ (ground arith, inr (ground arith))
]

rejects-no :
    (status : ℕ) (body : List ℕ)
    → length body ≤ max_body_bytes
    → (status ≡ 200) ⊎ (status ≡ 503)
    → rejects status body ≡ false
rejects-no status body le (inl e) = ground arith
rejects-no status body le (inr e) = ground arith

module _ (hmac : List ℕ → List ℕ → List ℕ) (key challenge : List ℕ) (status : ℕ)
    (body header : List ℕ) where
  same_tag :
      (tag message framed message' framed' : List ℕ)
      → ◌≡◌ {A = Checked (Unit {0})}
          (if same_bytes (hmac key (message ++ be_u16 status ++ framed)) tag
            then pass tt
            else fail authentication)
          (pass tt)
      → message ≡ message'
      → framed ≡ framed'
      → tag ≡ hmac key (message' ++ be_u16 status ++ framed')
  same_tag tag message framed message' framed' h m f =
      elim (Bool-cases (same_bytes (hmac key (message ++ be_u16 status ++ framed)) tag)) [
        | inl t ↦
            sym (same_bytes-eq _ tag t)
            ∙ ap (λ k. hmac key (k ++ be_u16 status ++ framed)) m
            ∙ ap (λ k. hmac key (message' ++ be_u16 status ++ k)) f
        | inr n ↦ cc (rw n at h)
      ]

  accepted :
      length challenge ≤ u32_max
      → verify_response hmac key challenge status body header ≡ pass tt
      → (rejects status body ≡ false)
        × (decode_tag header ≡ pass (hmac key (attestation challenge status body)))
  unfolding verify_response
  accepted small h = elim (Bool-cases (rejects status body)) [
    | inl t ↦ cc (rw t at h)
    | inr f ↦
        let (tag, d, h1) = and_then-eq (decode_tag header) _ (rw f at h) in
        let (message, st, h2) = and_then-eq (start attestation_domain challenge) _ h1 in
        let (framed, fb, h3) = and_then-eq (field body) _ h2 in
        let (le, _) = rejects_not status body f in
        let is_message = pass-inj (sym st ∙ start-pass attestation_domain challenge small) in
        let is_framed = pass-inj (sym fb ∙ field-pass body (omega (arith, le))) in
        (
          f,
          d ∙ ap (λ (t : List ℕ). pass t) (same_tag tag message framed _ _ h3 is_message is_framed),
        )
  ]

  accepts :
      length challenge ≤ u32_max
      → length body ≤ max_body_bytes
      → rejects status body ≡ false
      → decode_tag header ≡ pass (hmac key (attestation challenge status body))
      → verify_response hmac key challenge status body header ≡ pass tt
  unfolding verify_response
  accepts small le f d =
      rw
        (
          f,
          d,
          start-pass attestation_domain challenge small,
          field-pass body (omega (arith, le)),
          same_bytes_self (hmac key (attestation challenge status body)),
        )
        refl

  -- If a challenge has 32 bytes and the tags of the MAC are 32 bytes, a response is accepted exactly
  -- when its body is within the bound, its status is 200 or 503, and its header is the lowercase
  -- hexadecimal text of the tag of the challenge, the status and the body.
  pub verify_response_iff :
      length challenge ≡ 32
      → ((message : List ℕ) → length (hmac key message) ≡ 32)
      → ((message : List ℕ) → All IsByte (hmac key message))
      → (verify_response hmac key challenge status body header ≡ pass tt) ↔ (
          (length body ≤ max_body_bytes)
          × ((status ≡ 200) ⊎ (status ≡ 503))
          × (header ≡ hex (hmac key (attestation challenge status body))))
  verify_response_iff c32 long bytes =
      let message = attestation challenge status body in
      let text = decode_tag_iff (hmac key message) header (long message) (bytes message) in
      (
        λ h.
            let (f, d) = accepted (omega (arith, c32)) h in
            let (le, which) = rejects_not status body f in (le, which, text.0 d),
        λ (le, which, e).
            accepts (omega (arith, c32)) le (rejects-no status body le which) (text.1 e),
      )

-- The message that a request's tag is to authenticate.
abbrev pub request : List ℕ → List ℕ → ℕ → List ℕ
request challenge nonce number =
    preamble (as_bytes "sts2-gateway-health-request-v1") challenge ++ nonce ++ be_u64 number

not_zero : (n : ℕ) → 1 ≤ n → (n == 0) ≡ false
not_zero n h = ground (arith, h)

-- If a challenge has 32 bytes and the tags of the MAC are 32 bytes, a request with a positive
-- sequence gets a header of 64 bytes that decodes to the tag of the challenge, the nonce and the
-- sequence.
pub request_tag-decode :
    (hmac : List ℕ → List ℕ → List ℕ) (key challenge nonce : List ℕ) (number : ℕ)
    → length challenge ≡ 32
    → ((message : List ℕ) → length (hmac key message) ≡ 32)
    → ((message : List ℕ) → All IsByte (hmac key message))
    → 1 ≤ number
    → (header : List ℕ) × (request_tag hmac key challenge nonce number ≡ pass header)
      × (length header ≡ 64)
      × (decode_tag header ≡ pass (hmac key (request challenge nonce number)))
unfolding request_tag
request_tag-decode hmac key challenge nonce number c32 long bytes positive =
    let tag = hmac key (request challenge nonce number) in
    let size = length-hex tag in
    (
      hex tag,
      rw
          (
            not_zero number positive,
            start-pass (as_bytes "sts2-gateway-health-request-v1") challenge (omega (arith, c32)),
          )
          refl,
      omega (arith, size, long (request challenge nonce number)),
      (decode_tag_iff tag (hex tag) (long _) (bytes _)).1 refl,
    )
