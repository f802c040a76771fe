-- ===== src/Coap/Errors.antt =====
-- The errors of `coap_build_request`.
use sense_firmware.Prelude.{
  ℕ, ◌≡◌, refl, Bool, true, false, ◌&&◌, ◌||◌, Bool-cases, inl, inr, List, [], ◌∷◌, Option, none,
  some, ltb, leb, ◌==◌, length, ℤ, pos, negsuc,
}
use sense_firmware.Coap.{
  CoapLib, Built, ok, err, ◌>>=◌, checked, guard, IsErrno, is_errno, append_path, put_payload,
  append_body, append_uri, build_request, method_get, method_post, method_put, method_delete,
  type_non_con,
}

-- A result whose error, if it is one, is negative.
abbrev pub Errs : {P : Type 0} → Built P → Type 0
Errs (ok p) = Unit {0}
Errs (err e) = is_errno e ≡ true

Errs->>= :
    {P Q : Type 0} (m : Built P) (f : P → Built Q)
    → Errs m
    → ((p : P) → Errs (f p))
    → Errs (m >>= f)
Errs->>= (ok p) f h k = k p
Errs->>= (err e) f h k = h

Errs-checked : {P : Type 0} (ret : ℤ) (p : P) → IsErrno ret → Errs (checked (ret, p))
Errs-checked ret p (inl z) = rw z tt
Errs-checked (pos n) p (inr h) = cc
Errs-checked (negsuc n) p (inr h) = h

Errs-guard : (b : Bool) → Errs (guard b)
Errs-guard true = tt
Errs-guard false = refl

module _ (lib : CoapLib) where
  Errs-append_path : (l : List (List ℕ)) (p : lib.Packet) → Errs (append_path lib l p)
  unfolding append_path
  Errs-append_path [] p = tt
  Errs-append_path (segment ∷ rest) p =
      Errs->>= (checked (lib.append_uri_path p segment)) (append_path lib rest)
        (Errs-checked (lib.append_uri_path p segment).0 (lib.append_uri_path p segment).1
          (lib.append_uri_path_ret p segment))
        (λ q. Errs-append_path rest q)

  Errs-append_uri : (o : Option (List (List ℕ))) (p : lib.Packet) → Errs (append_uri lib o p)
  unfolding append_uri
  Errs-append_uri none p = tt
  Errs-append_uri (some l) p = Errs-append_path l p

  Errs-put_payload : (bytes : List ℕ) (p : lib.Packet) → Errs (put_payload lib bytes p)
  unfolding put_payload
  Errs-put_payload bytes p =
      Errs->>= (checked (lib.append_payload_marker p)) (λ m. checked (lib.append_payload m bytes))
        (Errs-checked (lib.append_payload_marker p).0 (lib.append_payload_marker p).1
          (lib.append_payload_marker_ret p))
        (λ q.
          Errs-checked (lib.append_payload q bytes).0 (lib.append_payload q bytes).1
            (lib.append_payload_ret q bytes))

  Errs-append_body :
      (method : ℕ) (o : Option (List ℕ)) (p : lib.Packet) → Errs (append_body lib method o p)
  unfolding append_body
  Errs-append_body method none p = tt
  Errs-append_body method (some bytes) p =
      elim (Bool-cases ((method == method_put || method == method_post) && ltb 0 (length bytes))) [
        | inl o ↦ rw o (Errs-put_payload bytes p)
        | inr o ↦ rw o tt
      ]

  pub build_request-Errs :
      (buf_len type method : ℕ) (uri_path : Option (List (List ℕ))) (bytes : Option (List ℕ))
      → Errs (build_request lib buf_len type method uri_path bytes)
  unfolding build_request
  build_request-Errs buf_len type method uri_path bytes =
      Errs->>= (guard (leb method_get method && leb method method_delete)) _ (Errs-guard _) λ _.
        Errs->>= (guard (type == type_non_con)) _ (Errs-guard _) λ _.
          Errs->>= (checked (lib.init buf_len type method)) _
            (Errs-checked (lib.init buf_len type method).0 (lib.init buf_len type method).1
              (lib.init_ret buf_len type method))
            λ p.
              Errs->>= (append_uri lib uri_path p) _ (Errs-append_uri uri_path p)
                λ q. Errs-append_body method bytes q
