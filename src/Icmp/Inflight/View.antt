-- ===== src/Icmp/Inflight/View.antt =====
-- The inflight state as a map from message ids to entries, and what each change does to that map.
use mathlib.Core.Option
use native.Mathlib.Decide.{dec_lt}
use sense_firmware.Prelude.{
  ℕ, ◌<◌, ◌≡◌, ◌∙◌, Option, none, some, false, arith, ◌==◌, if◌then◌else◌, length, get_elem?, set,
  length-set, get_elem?-set_self, get_elem?-set_ne, get_elem?-lt, get_elem?-ge,
}
use sense_firmware.Icmp.Bitmap.{
  max_inflight, is_bit_set, is_bit_set-set_bit, is_bit_set-clear_bit, set_bit-lt, clear_bit-lt,
  is_bit_set-zero,
}
use sense_firmware.Icmp.Inflight.{
  Entry, Inflight, cleared, no_inflight, send_pending, claim_bit, drop_entry, stamp,
}

-- The entry of a message id that is in flight.
unfoldable pub view : Inflight → ℕ → Option Entry
view st id = if is_bit_set st.bitmap id then get_elem? st.table id else none

-- The table has an entry for each bit, and an id that is not in flight has no callback.
pub record IsValid (st : Inflight) : Type 0 where
  pub width : st.bitmap < 256
  pub size : length st.table ≡ max_inflight
  pub idle :
      (id : ℕ) (e : Entry)
      → id < max_inflight
      → is_bit_set st.bitmap id ≡ false
      → get_elem? st.table id ≡ some e
      → e.callback ≡ none

-- An entry with the time of its sending.
abbrev pub restamp : ℕ → Entry → Entry
restamp uptime e = record e { timestamp = uptime }

pub no_inflight-view : (id : ℕ) → id < max_inflight → view no_inflight id ≡ none
unfolding view
no_inflight-view id h = ground (arith, is_bit_set-zero id h)

module _ (st : Inflight) (v : IsValid st) where
  pub view-claim_bit :
      (callback : Option ℕ) (user_data id j : ℕ)
      → id < max_inflight
      → j < max_inflight
      → view (claim_bit callback user_data st id) j ≡ (
          if id == j
          then some
              (record { timestamp = send_pending; callback = callback; user_data = user_data })
          else view st j)
  unfolding view claim_bit
  view-claim_bit callback user_data id j hid hj = ground (
    arith,
    is_bit_set-set_bit st.bitmap id v.width hid j hj,
    get_elem?-set_ne st.table id j
        (record { timestamp = send_pending; callback = callback; user_data = user_data }),
    get_elem?-set_self st.table id
        (record { timestamp = send_pending; callback = callback; user_data = user_data }),
    v.size,
  )

  pub view-drop_entry :
      (id j : ℕ)
      → id < max_inflight
      → j < max_inflight
      → view (drop_entry id st) j ≡ (if id == j then none else view st j)
  unfolding view drop_entry
  view-drop_entry id j hid hj = ground (
    arith,
    is_bit_set-clear_bit st.bitmap id v.width hid j hj,
    get_elem?-set_ne st.table id j cleared,
  )

  pub view-stamp :
      (id uptime j : ℕ)
      → id < max_inflight
      → j < max_inflight
      → view (stamp id uptime st) j
        ≡ (if id == j then Option.map (restamp uptime) (view st j) else view st j)
  unfolding view stamp
  view-stamp id uptime j hid hj =
      let (e, p) = get_elem?-lt st.table id (omega (arith, v.size)) in
      ground (
        arith,
        p,
        v.size,
        get_elem?-set_ne st.table id j (record e { timestamp = uptime }),
        get_elem?-set_self st.table id (record e { timestamp = uptime }),
      )

  pub claim_bit-IsValid :
      (callback : Option ℕ) (user_data id : ℕ)
      → id < max_inflight
      → IsValid (claim_bit callback user_data st id)
  unfolding claim_bit
  claim_bit-IsValid callback user_data id hid = record {
    width = set_bit-lt st.bitmap id;
    size = length-set st.table id _ ∙ v.size;
    idle = λ j e hj off at. ground (
      arith,
      is_bit_set-set_bit st.bitmap id v.width hid j hj,
      v.idle j e hj,
      get_elem?-set_ne st.table id j
          (record { timestamp = send_pending; callback = callback; user_data = user_data }),
    );
  }

  pub drop_entry-IsValid : (id : ℕ) → id < max_inflight → IsValid (drop_entry id st)
  unfolding drop_entry
  drop_entry-IsValid id hid = record {
    width = clear_bit-lt st.bitmap id;
    size = length-set st.table id _ ∙ v.size;
    idle = λ j e hj off at. ground (
      arith,
      is_bit_set-clear_bit st.bitmap id v.width hid j hj,
      v.idle j e hj,
      v.size,
      get_elem?-set_ne st.table id j cleared,
      get_elem?-set_self st.table id cleared,
    );
  }

  stamp_in_table : (id uptime : ℕ) → id < max_inflight → IsValid (stamp id uptime st)
  unfolding stamp
  stamp_in_table id uptime hid =
      let (e, p) = get_elem?-lt st.table id (omega (arith, v.size)) in
      rw (p, stamp)
        (record {
          width = v.width;
          size = length-set st.table id _ ∙ v.size;
          idle = λ j x hj off at. stamped e p j x hj off at;
        })
    where
      stamped :
          (e : Entry)
          → get_elem? st.table id ≡ some e
          → (j : ℕ) (x : Entry) → j < max_inflight
          → is_bit_set st.bitmap j ≡ false
          → get_elem? (set st.table id (record e { timestamp = uptime })) j ≡ some x
          → x.callback ≡ none
      stamped e p j x hj off at = ground (
        arith,
        v.idle j x hj off,
        v.idle id e hid,
        v.size,
        get_elem?-set_ne st.table id j (record e { timestamp = uptime }),
        get_elem?-set_self st.table id (record e { timestamp = uptime }),
      )

  pub stamp-IsValid : (id uptime : ℕ) → IsValid (stamp id uptime st)
  unfolding stamp
  stamp-IsValid id uptime = elim (dec_lt id max_inflight) [
    | yes h ↦ stamp_in_table id uptime h
    | no h ↦ outside (get_elem?-ge st.table id (omega (arith, v.size)))
  ]
    where
      outside : get_elem? st.table id ≡ none → IsValid (stamp id uptime st)
      outside e = rw (e, stamp) v
