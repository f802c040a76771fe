-- ===== src/Coap/Request.antt =====
-- The request that `coap_build_request` encodes.
use sense_firmware.Prelude.{
  ℕ, zero, suc, ◌≤◌, ◌≡◌, refl, ap, sym, ◌∙◌, true, ◌&&◌, ◌||◌, Bool-cases, inl, inr, List, [], ◌∷◌,
  ◌++◌, append_assoc, append-nil, Option, none, some, arith, ltb, leb, ◌==◌, if◌then◌else◌, length,
  ℤ, pos, negsuc, is_ok,
}
use sense_firmware.Coap.{
  CoapLib, Built, ok, err, ◌>>=◌, checked, guard, append_path, put_payload, append_body, append_uri,
  build_request, method_get, method_delete, type_non_con,
}

is_ok_eq : (r : ℤ) → is_ok r ≡ true → r ≡ pos 0
is_ok_eq (pos zero) h = refl
is_ok_eq (pos (suc n)) h = cc
is_ok_eq (negsuc n) h = cc

>>=-eq-ok :
    {P Q : Type 0} (m : Built P) (f : P → Built Q) {q : Q}
    → (m >>= f) ≡ ok q
    → (p : P) × (m ≡ ok p) × (f p ≡ ok q)
>>=-eq-ok (ok p) f h = (p, refl, h)
>>=-eq-ok (err e) f h = cc

checked-eq-ok :
    {P : Type 0} (ret : ℤ) (p p' : P) → checked (ret, p) ≡ ok p' → (ret ≡ pos 0) × (p ≡ p')
checked-eq-ok ret p p' h = elim (Bool-cases (is_ok ret)) [
  | inl o ↦ (is_ok_eq ret o, ground arith)
  | inr o ↦ absurd (ground arith)
]

-- What the payload of a request is: none, except for PUT and POST with at least a byte to send.
abbrev pub sent_payload : ℕ → Option (List ℕ) → Option (List ℕ)
sent_payload method none = none
sent_payload method (some bytes) =
    if (method == 2 || method == 3) && ltb 0 (length bytes) then some bytes else none

abbrev pub segments : Option (List (List ℕ)) → List (List ℕ)
segments none = []
segments (some uri_path) = uri_path

module _ (lib : CoapLib) where
  open lib use {
    Packet, init, append_uri_path, append_payload_marker, append_payload, path, payload, code,
    marked,
  }

  -- What a request encodes.
  pub record Encodes (p : Packet) (uri_path : List (List ℕ)) (bytes : Option (List ℕ)) (method : ℕ)
      : Type 0 where
    pub path_eq : path p ≡ uri_path
    pub payload_eq : payload p ≡ bytes
    pub code_eq : code p ≡ method

  append_path-Encodes :
      (rest done : List (List ℕ)) (p p' : Packet) (method : ℕ)
      → Encodes p done none method
      → append_path lib rest p ≡ ok p'
      → Encodes p' (done ++ rest) none method
  unfolding append_path
  append_path-Encodes [] done p p' method v e = record {
    path_eq = ground (arith, v.path_eq, append-nil done);
    payload_eq = ground (arith, v.payload_eq);
    code_eq = ground (arith, v.code_eq);
  }
  append_path-Encodes (segment ∷ rest) done p p' method v e =
      let (q, e₁, e₂) = >>=-eq-ok (checked (append_uri_path p segment)) (append_path lib rest) e in
      let (ret, same) =
        checked-eq-ok (append_uri_path p segment).0 (append_uri_path p segment).1 q e₁ in
      let (a, b, c) = lib.append_uri_path_lem p segment ret in
      rw (append_assoc done (segment ∷ []) rest) at (
        append_path-Encodes rest (done ++ segment ∷ []) q p' method
          (record {
            path_eq = ap path (sym same) ∙ a ∙ ap (λ l. l ++ segment ∷ []) v.path_eq;
            payload_eq = ap payload (sym same) ∙ b ∙ v.payload_eq;
            code_eq = ap code (sym same) ∙ c ∙ v.code_eq;
          })
          e₂)

  append_uri-Encodes :
      (uri_path : Option (List (List ℕ))) (p p' : Packet) (method : ℕ)
      → Encodes p [] none method
      → append_uri lib uri_path p ≡ ok p'
      → Encodes p' (segments uri_path) none method
  unfolding append_uri
  append_uri-Encodes none p p' method v e = record {
    path_eq = ground (arith, v.path_eq);
    payload_eq = ground (arith, v.payload_eq);
    code_eq = ground (arith, v.code_eq);
  }
  append_uri-Encodes (some l) p p' method v e = append_path-Encodes l [] p p' method v e

  put_payload-Encodes :
      (l : List (List ℕ)) (bytes : List ℕ) (p p' : Packet) (method : ℕ)
      → Encodes p l none method
      → put_payload lib bytes p ≡ ok p'
      → Encodes p' l (some bytes) method
  unfolding put_payload
  put_payload-Encodes l bytes p p' method v e =
      let (q, e₁, e₂) =
        >>=-eq-ok (checked (append_payload_marker p)) (λ m. checked (append_payload m bytes)) e in
      let (ret, same) =
        checked-eq-ok (append_payload_marker p).0 (append_payload_marker p).1 q e₁ in
      let (a, b, c) = lib.append_payload_marker_lem p ret in
      let (ret', same') =
        checked-eq-ok (append_payload q bytes).0 (append_payload q bytes).1 p' e₂ in
      let (a', b', c') = lib.append_payload_lem q bytes (ap marked (sym same) ∙ b) ret' in
      record {
        path_eq = ap path (sym same') ∙ a' ∙ ap path (sym same) ∙ a ∙ v.path_eq;
        payload_eq = ap payload (sym same') ∙ b';
        code_eq = ap code (sym same') ∙ c' ∙ ap code (sym same) ∙ c ∙ v.code_eq;
      }

  append_body-Encodes :
      (l : List (List ℕ)) (bytes : Option (List ℕ)) (p p' : Packet) (method : ℕ)
      → Encodes p l none method
      → append_body lib method bytes p ≡ ok p'
      → Encodes p' l (sent_payload method bytes) method
  unfolding append_body
  append_body-Encodes l none p p' method v e = record {
    path_eq = ground (arith, v.path_eq);
    payload_eq = ground (arith, v.payload_eq);
    code_eq = ground (arith, v.code_eq);
  }
  append_body-Encodes l (some bytes) p p' method v e =
      elim (Bool-cases ((method == 2 || method == 3) && ltb 0 (length bytes))) [
        | inr o ↦ rw o (record {
          path_eq = ground (arith, v.path_eq);
          payload_eq = ground (arith, v.payload_eq);
          code_eq = ground (arith, v.code_eq);
        })
        | inl o ↦ rw o (put_payload-Encodes l bytes p p' method v (ground (arith, e)))
      ]

  -- Where `coap_build_request` succeeds, the method is one of the four supported and the type is NON,
  -- and the request has that method, the components of the path in their order, and a payload exactly
  -- if the method is PUT or POST and the payload has a byte.
  pub build_request-Encodes :
      (buf_len type method : ℕ) (uri_path : Option (List (List ℕ))) (bytes : Option (List ℕ))
      (p : Packet)
      → build_request lib buf_len type method uri_path bytes ≡ ok p
      → (method_get ≤ method)
        × (method ≤ method_delete)
        × (type ≡ type_non_con)
        × Encodes p (segments uri_path) (sent_payload method bytes) method
  unfolding build_request
  build_request-Encodes buf_len type method uri_path bytes p e =
      let (u, g, e₁) = >>=-eq-ok (guard (leb method_get method && leb method method_delete)) _ e in
      let (u', g', e₂) = >>=-eq-ok (guard (type == type_non_con)) _ e₁ in
      let (q, e₃, e₄) = >>=-eq-ok (checked (init buf_len type method)) _ e₂ in
      let (ret, same) =
        checked-eq-ok (init buf_len type method).0 (init buf_len type method).1 q e₃ in
      let (a, b, c) = lib.init_lem buf_len type method ret in
      let (q', e₅, e₆) = >>=-eq-ok (append_uri lib uri_path q) _ e₄ in
      (
        ground arith,
        ground arith,
        ground arith,
        append_body-Encodes (segments uri_path) bytes q' p method
            (append_uri-Encodes uri_path q q' method
              (record {
                path_eq = ap path (sym same) ∙ a;
                payload_eq = ap payload (sym same) ∙ b;
                code_eq = ap code (sym same) ∙ c;
              })
              e₅)
            e₆,
      )
