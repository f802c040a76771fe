-- ===== src/Icmp/Inflight.antt =====
-- The inflight bitmap and table of lib/icmp/icmp.c, and the code that runs under their mutex.
-- A timestamp is the bit pattern of an `int64_t`; a callback is a function pointer, or null.
pub mod View
pub mod Claim
pub mod Timeout
pub mod Abstract
pub mod Tally
mod Tests
use sense_firmware.Prelude.{
  ℕ, zero, suc, ◌+◌, ◌-◌, ◌/◌, ◌%◌, ◌^◌, List, Option, none, some, bit_and, ltb, ◌==◌,
  if◌then◌else◌, get_elem?, set, replicate, ℤ, pos, negsuc, is_ok,
}
use sense_firmware.Icmp.Bitmap.{max_inflight, set_bit, clear_bit, allocate_msg_id}

-- `ICMP_SEND_PENDING`
abbrev pub send_pending : ℕ
send_pending = 0

-- `CONFIG_ICMP_MAX_INFLIGHT_MSG_AGE`, at its default, in milliseconds
abbrev pub max_age : ℕ
max_age = 1000

-- `struct icmp_inflight_table_entry`
pub record Entry : Type 0 where
  pub timestamp : ℕ
  pub callback : Option ℕ
  pub user_data : ℕ

abbrev pub cleared : Entry
cleared = record { timestamp = 0; callback = none; user_data = 0 }

pub record Inflight : Type 0 where
  pub bitmap : ℕ
  pub table : List Entry

-- What `icmp_test_reset_inflight_state` restores, and what the program starts with.
abbrev pub no_inflight : Inflight
no_inflight = record { bitmap = 0; table = replicate max_inflight cleared }

-- The table entry of a new command, and its bit.
unfoldable pub claim_bit : Option ℕ → ℕ → Inflight → ℕ → Inflight
claim_bit callback user_data st id = record {
  bitmap = set_bit st.bitmap id;
  table =
      set st.table id
        (record { timestamp = send_pending; callback = callback; user_data = user_data });
}

-- The part of `icmp_command` under the mutex: the new message id, or the error of the allocation.
unfoldable pub claim_id : Option ℕ → ℕ → Inflight → ℤ × Inflight
unfolding claim_bit
claim_id callback user_data st = elim (allocate_msg_id st.bitmap max_inflight) [
  | negsuc n ↦ (negsuc n, st)
  | pos id ↦ (pos id, claim_bit callback user_data st id)
]

-- Unsets the inflight bit and clears the table entry.
unfoldable pub drop_entry : ℕ → Inflight → Inflight
drop_entry id st = record { bitmap = clear_bit st.bitmap id; table = set st.table id cleared }

-- `update_inflight_timestamp` for a COMMAND frame; the code ignores what locking returns.
unfoldable pub stamp : ℕ → ℕ → Inflight → Inflight
stamp id uptime st = elim (get_elem? st.table id) [
  | none ↦ st
  | some e ↦ record st { table = set st.table id (record e { timestamp = uptime }) }
]

-- One round of the scan: `bitmap` is the shifted copy, and the age is a `uint64_t` difference.
unfoldable pub expire_slot : ℕ → ℕ → ℕ → Inflight → Inflight
unfolding drop_entry
expire_slot bitmap bit uptime st =
    if bit_and bitmap 1 == 0 then st else elim (get_elem? st.table bit) [
      | none ↦ st
      | some e ↦
          if e.timestamp == send_pending
          then st
          else if ltb max_age ((uptime + 2 ^ 64 - e.timestamp) % 2 ^ 64)
          then drop_entry bit st
          else st
    ]

-- The scan over the rounds left.
unfoldable pub expire_from : ℕ → ℕ → ℕ → ℕ → Inflight → Inflight
expire_from zero bitmap bit uptime st = st
expire_from (suc rounds) bitmap bit uptime st =
    expire_from rounds (bitmap / 2) (suc bit) uptime (expire_slot bitmap bit uptime st)

-- `icmp_inflight_timeout_handler`
unfoldable pub timeout_handler : ℤ → ℕ → Inflight → Inflight
timeout_handler lock uptime st =
    if is_ok lock
    then (if st.bitmap == 0 then st else expire_from max_inflight st.bitmap 0 uptime st)
    else st
