-- ===== src/Coap.antt =====
-- lib/coap/coap.c over Zephyr's CoAP packet functions, which are a parameter.
pub mod Tests
pub mod Request
pub mod Errors
pub mod Calls
use sense_firmware.Prelude.{
  ℕ, ◌≤◌, ◌≡◌, ◌≢◌, Bool, true, ◌&&◌, ◌||◌, List, [], ◌∷◌, ◌++◌, Option, none, some, ltb, leb, ◌==◌,
  if◌then◌else◌, length, ℤ, pos, einval, is_ok, negsuc, ◌⊎◌, false,
}

-- `enum coap_method` and `enum coap_msgtype`, as RFC 7252 numbers them
abbrev pub method_get : ℕ
method_get = 1

abbrev pub method_post : ℕ
method_post = 2

abbrev pub method_put : ℕ
method_put = 3

abbrev pub method_delete : ℕ
method_delete = 4

abbrev pub type_non_con : ℕ
type_non_con = 1

-- A negative errno, which is a small number.
abbrev pub is_errno : ℤ → Bool
is_errno (pos n) = false
is_errno (negsuc n) = ltb n 4096

-- Zero, or a negative errno
abbrev pub IsErrno : ℤ → Type 0
IsErrno ret = (ret ≡ pos 0) ⊎ (is_errno ret ≡ true)

-- `coap_packet_init`, `coap_packet_append_option` for URI_PATH, `coap_packet_append_payload_marker` and
-- `coap_packet_append_payload`: each returns 0 or a negative errno. A packet knows the path and the
-- payload that it encodes, and whether its options are closed by the payload marker, without which
-- bytes that are appended are no payload; its bytes are in the buffer, `offset` of them.
pub record CoapLib : Type 1 where
  pub Packet : Type 0
  pub init : ℕ → ℕ → ℕ → ℤ × Packet
  pub append_uri_path : Packet → List ℕ → ℤ × Packet
  pub append_payload_marker : Packet → ℤ × Packet
  pub append_payload : Packet → List ℕ → ℤ × Packet
  pub offset : Packet → ℕ
  pub buffer : Packet → List ℕ
  pub path : Packet → List (List ℕ)
  pub payload : Packet → Option (List ℕ)
  pub code : Packet → ℕ
  pub marked : Packet → Bool
  pub init_ret : (buf_len type method : ℕ) → IsErrno (init buf_len type method).0
  pub append_uri_path_ret : (p : Packet) (segment : List ℕ) → IsErrno (append_uri_path p segment).0
  pub append_payload_marker_ret : (p : Packet) → IsErrno (append_payload_marker p).0
  pub append_payload_ret : (p : Packet) (bytes : List ℕ) → IsErrno (append_payload p bytes).0
  pub init_lem :
      (buf_len type method : ℕ)
      → (init buf_len type method).0 ≡ pos 0
      → let p = (init buf_len type method).1 in
        (path p ≡ []) × (payload p ≡ none) × (code p ≡ method)
  pub append_uri_path_lem :
      (p : Packet) (segment : List ℕ)
      → (append_uri_path p segment).0 ≡ pos 0
      → let p' = (append_uri_path p segment).1 in
        (path p' ≡ path p ++ segment ∷ []) × (payload p' ≡ payload p) × (code p' ≡ code p)
  pub append_payload_marker_lem :
      (p : Packet)
      → (append_payload_marker p).0 ≡ pos 0
      → let p' = (append_payload_marker p).1 in
        (path p' ≡ path p) × (marked p' ≡ true) × (code p' ≡ code p)
  pub append_payload_lem :
      (p : Packet) (bytes : List ℕ)
      → marked p ≡ true
      → (append_payload p bytes).0 ≡ pos 0
      → let p' = (append_payload p bytes).1 in
        (path p' ≡ path p) × (payload p' ≡ some bytes) × (code p' ≡ code p)

-- A request under construction, or the error that ends the call.
pub data Built (Packet : Type 0) : Type 0 where
  ok : Packet → Built Packet
  err : ℤ → Built Packet

infixl 5 ◌>>=◌
abbrev pub ◌>>=◌ : {P Q : Type 0} → Built P → (P → Built Q) → Built Q
ok p >>= f = f p
err e >>= f = err e

-- `if (ret != 0) return ret;`
abbrev pub checked : {P : Type 0} → ℤ × P → Built P
checked (ret, p) = if is_ok ret then ok p else err ret

abbrev pub guard : Bool → Built (Unit {0})
guard true = ok tt
guard false = err einval

module _ (lib : CoapLib) where
  open lib use {Packet, init, append_uri_path, append_payload_marker, append_payload, offset}

  -- The loop over the path components.
  unfoldable pub append_path : List (List ℕ) → Packet → Built Packet
  append_path [] p = ok p
  append_path (segment ∷ rest) p = checked (append_uri_path p segment) >>= append_path rest

  -- The payload marker and the payload.
  unfoldable pub put_payload : List ℕ → Packet → Built Packet
  put_payload bytes p = do
    marked ← checked (append_payload_marker p)
    checked (append_payload marked bytes)

  unfoldable pub append_body : ℕ → Option (List ℕ) → Packet → Built Packet
  append_body method none p = ok p
  append_body method (some bytes) p =
      if (method == method_put || method == method_post) && ltb 0 (length bytes)
      then put_payload bytes p
      else ok p

  -- A null `uri_path` adds no component.
  unfoldable pub append_uri : Option (List (List ℕ)) → Packet → Built Packet
  unfolding append_path
  append_uri none p = ok p
  append_uri (some segments) p = append_path segments p

  -- `coap_build_request`, up to the offset that it returns
  unfoldable pub build_request : ℕ → ℕ → ℕ → Option (List (List ℕ)) → Option (List ℕ) → Built Packet
  unfolding append_uri append_body
  build_request buf_len type method uri_path bytes = do
    _ ← guard (leb method_get method && leb method method_delete)
    _ ← guard (type == type_non_con)
    request ← checked (init buf_len type method)
    located ← append_uri uri_path request
    append_body method bytes located

  -- The `int` that `coap_build_request` returns
  abbrev pub result : Built Packet → ℤ
  result (ok p) = pos (offset p)
  result (err e) = e
