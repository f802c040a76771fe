-- ===== src/Coap/Calls.antt =====
-- The calls of the packet functions that a request needs, in their order, and where they end.
use sense_firmware.Prelude.{
  ℕ, ◌≤◌, ◌≡◌, refl, ◌⊎◌, inl, inr, Bool, true, false, ◌&&◌, ◌||◌, Bool-cases, List, [], ◌∷◌, ◌++◌,
  map, Option, none, some, arith, ltb, leb, ◌==◌, length, ℤ, pos, negsuc, einval, if◌then◌else◌,
}
use sense_firmware.Coap.{
  CoapLib, Built, ok, err, ◌>>=◌, checked, IsErrno, is_errno, append_path, put_payload, append_body,
  append_uri, build_request, method_get, method_delete, type_non_con,
}

-- What comes of calls that are made one after the other: the first that does not return 0 ends
-- them, with its negative errno, and if there is none the packet that the last one leaves is the
-- outcome.
abbrev pub Follows : {P : Type 0} → List (P → ℤ × P) → P → Built P → Type 0
Follows [] p built = built ≡ ok p
Follows (call ∷ calls) p built =
    (((call p).0 ≡ pos 0) × Follows calls (call p).1 built)
    ⊎ ((is_errno (call p).0 ≡ true) × (built ≡ err (call p).0))

Follows->>= :
    {P : Type 0} (calls later : List (P → ℤ × P)) (p : P) (m : Built P) (f : P → Built P)
    → Follows calls p m
    → ((q : P) → Follows later q (f q))
    → Follows (calls ++ later) p (m >>= f)
Follows->>= [] later p m f h k = rw h (k p)
Follows->>= (call ∷ calls) later p m f (inl (z, h)) k =
    inl (z, Follows->>= calls later (call p).1 m f h k)
Follows->>= (call ∷ calls) later p m f (inr (e, h)) k = inr (e, rw h refl)

Follows-checked :
    {P : Type 0} (call : P → ℤ × P) (p : P)
    → IsErrno (call p).0
    → Follows (call ∷ []) p (checked (call p))
Follows-checked call p (inl z) = inl (z, rw z refl)
Follows-checked call p (inr e) = inr (e, stops (call p).0 (call p).1 e)
  where
    stops : {P : Type 0} (ret : ℤ) (q : P) → is_errno ret ≡ true → checked (ret, q) ≡ err ret
    stops (pos n) q h = cc
    stops (negsuc n) q h = refl

module _ (lib : CoapLib) where
  open lib use {Packet, init, append_uri_path, append_payload_marker, append_payload}

  -- One option for each component of the path.
  abbrev pub path_calls : Option (List (List ℕ)) → List (Packet → ℤ × Packet)
  path_calls none = []
  path_calls (some segments) = map (λ segment p. append_uri_path p segment) segments

  -- The marker and the payload, for PUT and POST with at least a byte.
  abbrev pub payload_calls : ℕ → Option (List ℕ) → List (Packet → ℤ × Packet)
  payload_calls method none = []
  payload_calls method (some bytes) =
      if (method == 3 || method == 2) && ltb 0 (length bytes)
      then append_payload_marker ∷ (λ p. append_payload p bytes) ∷ []
      else []

  append_path-Follows :
      (segments : List (List ℕ)) (p : Packet)
      → Follows (path_calls (some segments)) p (append_path lib segments p)
  unfolding append_path
  append_path-Follows [] p = refl
  append_path-Follows (segment ∷ rest) p =
      Follows->>= ((λ q. append_uri_path q segment) ∷ []) (path_calls (some rest)) p
        (checked (append_uri_path p segment)) (append_path lib rest)
        (Follows-checked (λ q. append_uri_path q segment) p (lib.append_uri_path_ret p segment))
        (append_path-Follows rest)

  append_uri-Follows :
      (uri_path : Option (List (List ℕ))) (p : Packet)
      → Follows (path_calls uri_path) p (append_uri lib uri_path p)
  unfolding append_uri
  append_uri-Follows none p = refl
  append_uri-Follows (some segments) p = append_path-Follows segments p

  append_body-Follows :
      (method : ℕ) (bytes : Option (List ℕ)) (p : Packet)
      → Follows (payload_calls method bytes) p (append_body lib method bytes p)
  unfolding append_body put_payload
  append_body-Follows method none p = refl
  append_body-Follows method (some bytes) p =
      either ((method == 3 || method == 2) && ltb 0 (length bytes))
    where
      either :
          (has_payload : Bool)
          → Follows
              (if has_payload
                then append_payload_marker ∷ (λ q. append_payload q bytes) ∷ []
                else [])
              p
              (if has_payload then put_payload lib bytes p else ok p)
      either false = refl
      either true =
          Follows->>= (append_payload_marker ∷ []) ((λ q. append_payload q bytes) ∷ []) p
            (checked (append_payload_marker p)) (λ q. checked (append_payload q bytes))
            (Follows-checked append_payload_marker p (lib.append_payload_marker_ret p))
            (λ q. Follows-checked (λ r. append_payload r bytes) q (lib.append_payload_ret q bytes))

  abbrev pub Supported : ℕ → ℕ → Type 0
  Supported type method = (method_get ≤ method) × (method ≤ method_delete) × (type ≡ type_non_con)

  -- What `coap_build_request` may end with.
  abbrev pub Ends : ℕ → ℕ → ℕ → Option (List (List ℕ)) → Option (List ℕ) → Built Packet → Type 0
  Ends buf_len type method uri_path bytes built =
      ((¬ Supported type method) × (built ≡ err einval))
      ⊎ (Supported type method
          × (p : Packet) × Follows
              ((λ q. init buf_len type method)
                ∷ (path_calls uri_path ++ payload_calls method bytes))
              p built)

  -- A method other than the four supported or a type other than NON gives -EINVAL. Otherwise the packet
  -- functions are called in order, for the header, each component of the path, and, for PUT and POST
  -- with a byte to send, the marker and the payload: the first that fails ends the call with its
  -- negative errno, and if none does the request is what the last of them left.
  pub build_request-Ends :
      (buf_len type method : ℕ) (uri_path : Option (List (List ℕ))) (bytes : Option (List ℕ))
      → Ends buf_len type method uri_path bytes
          (build_request lib buf_len type method uri_path bytes)
  unfolding build_request
  build_request-Ends buf_len type method uri_path bytes =
      elim (Bool-cases (leb method_get method && leb method method_delete)) [
        | inr e ↦ inl ((λ h. ground (arith, h.0, h.1)), rw e refl)
        | inl e ↦ elim (Bool-cases (type == type_non_con)) [
          | inr f ↦ inl ((λ h. ground (arith, h.2)), rw (e, f) refl)
          | inl f ↦ inr (
            (ground arith, ground arith, ground arith),
            (init buf_len type method).1,
            rw (e, f)
                (Follows->>= ((λ q. init buf_len type method) ∷ [])
                  (path_calls uri_path ++ payload_calls method bytes) (init buf_len type method).1
                  (checked (init buf_len type method))
                  (λ q. append_uri lib uri_path q >>= append_body lib method bytes)
                  (Follows-checked (λ q. init buf_len type method) (init buf_len type method).1
                    (lib.init_ret buf_len type method))
                  (λ q.
                    Follows->>= (path_calls uri_path) (payload_calls method bytes) q
                      (append_uri lib uri_path q) (append_body lib method bytes)
                      (append_uri-Follows uri_path q) (append_body-Follows method bytes))),
          )
        ]
      ]
