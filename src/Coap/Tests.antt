-- ===== src/Coap/Tests.antt =====
-- Tests of the request builder, over a packet library without size limits.
use sense_firmware.Prelude.{
  arith, ◌<◌, ◌^◌, ℕ, ◌≤◌, ◌≡◌, inl, refl, Bool, true, false, if◌then◌else◌, List, [], ◌∷◌, ◌++◌,
  Option, none, some, replicate, pos,
}
use sense_firmware.Coap.{
  CoapLib, ok, put_payload, build_request, method_get, method_post, method_delete, type_non_con,
}
use sense_firmware.Coap.Request.{Encodes, build_request-Encodes}
use sense_firmware.Coap.Calls.{Ends, build_request-Ends}

pub record Request : Type 0 where
  pub path : List (List ℕ)
  pub payload : Option (List ℕ)
  pub code : ℕ
  pub marked : Bool

abbrev pub unlimited : CoapLib
unlimited = record {
  Packet = Request;
  init = λ buf_len type method.
      (pos 0, record { path = []; payload = none; code = method; marked = false });
  append_uri_path = λ p segment. (pos 0, record p { path = p.path ++ segment ∷ [] });
  append_payload_marker = λ p. (pos 0, record p { marked = true });
  append_payload = λ p bytes. (pos 0, record p { payload = if p.marked then some bytes else none });
  offset = λ p. 12;
  buffer = λ p. replicate 12 64;
  path = λ p. p.path;
  payload = λ p. p.payload;
  code = λ p. p.code;
  marked = λ p. p.marked;
  init_ret = λ buf_len type method. inl refl;
  append_uri_path_ret = λ p segment. inl refl;
  append_payload_marker_ret = λ p. inl refl;
  append_payload_ret = λ p bytes. inl refl;
  init_lem = λ buf_len type method e. (refl, refl, refl);
  append_uri_path_lem = λ p segment e. (refl, refl, refl);
  append_payload_marker_lem = λ p e. (refl, refl, refl);
  append_payload_lem = λ p bytes m e. (refl, rw m refl, refl);
}

pub offset_small : (p : unlimited.Packet) → unlimited.offset p < 2 ^ 31
offset_small p = omega arith

abbrev posted : Request
posted = record {
  path = (100 ∷ []) ∷ (97 ∷ []) ∷ [];
  payload = some (49 ∷ []);
  code = method_post;
  marked = true;
}

posted_built :
    build_request unlimited 256 type_non_con method_post
      (some ((100 ∷ []) ∷ (97 ∷ []) ∷ []))
      (some (49 ∷ []))
    ≡ ok posted
unfolding build_request put_payload
posted_built = refl

build_request-Encodes_example :
    (method_get ≤ method_post)
    × (method_post ≤ method_delete)
    × (type_non_con ≡ type_non_con)
    × Encodes unlimited posted ((100 ∷ []) ∷ (97 ∷ []) ∷ []) (some (49 ∷ [])) method_post
build_request-Encodes_example =
    build_request-Encodes unlimited 256 type_non_con method_post
      (some ((100 ∷ []) ∷ (97 ∷ []) ∷ [])) (some (49 ∷ [])) posted posted_built

build_request-Ends_example :
    Ends unlimited 256 type_non_con method_post (some ((100 ∷ []) ∷ [])) (some (49 ∷ [])) (
      build_request unlimited 256 type_non_con method_post
        (some ((100 ∷ []) ∷ []))
        (some (49 ∷ [])))
build_request-Ends_example =
    build_request-Ends unlimited 256 type_non_con method_post (some ((100 ∷ []) ∷ []))
      (some (49 ∷ []))
