-- ===== src/Sdi12.antt =====
-- The SDI-12 commands of the interface core: cores/interface/src/sdi12/sdi12_cmds.c and sdi12_queue.c.
-- An argument of the shell is its characters, without the null byte behind them.
pub mod Format
pub mod Thread
pub mod Exchange
pub mod Waits
pub mod Start
mod Tests
use sense_firmware.Prelude.{
  ℕ, ◌+◌, ◌-◌, ◌==◌, List, [], ◌∷◌, ◌++◌, Bool, true, false, Option, none, some, if◌then◌else◌,
  length, get_elem?, replicate, ℤ, pos, negsuc, einval, eio, is_negative,
}
use sense_firmware.Kernel.{MsgQueue}
use sense_firmware.Datapoint.{snprintf_at}

-- `SDI12_MSG_LEN`
abbrev pub sdi12_msg_len : ℕ
sdi12_msg_len = 80

-- `SDI12_CMD_QUEUE_SIZE` and `SDI12_RSP_QUEUE_SIZE`
abbrev pub sdi12_queue_size : ℕ
sdi12_queue_size = 4

-- The character '!', which ends a command
abbrev pub terminator : ℕ
terminator = 33

-- What `cmd_sdi12` prints into its buffer
abbrev pub command_text : List ℕ → ℕ → List ℕ
command_text arg last = if last == terminator then arg else arg ++ terminator ∷ []

-- The part of `cmd_sdi12` that fills the buffer; no result stands for the read of the byte before an
-- empty argument.
unfoldable pub fill_command : List ℕ → Option (List ℕ)
fill_command arg = elim (get_elem? arg (length arg - 1)) [
  | none ↦ none
  | some last ↦
      some (snprintf_at 0 sdi12_msg_len (command_text arg last) (replicate sdi12_msg_len 0))
]

-- `-ETIMEDOUT`
abbrev pub etimedout : ℤ
etimedout = negsuc 115

module _ (queue : MsgQueue (List ℕ) sdi12_queue_size) where
  -- `sdi12_command_enqueue` and `sdi12_response_enqueue`, without waiting
  unfoldable pub enqueue : List ℕ → queue.Queue → ℤ × queue.Queue
  enqueue msg q = queue.put q msg

  -- `cmd_sdi12` from its call of `sdi12_command_enqueue`, by the response that is dequeued before the
  -- time is over: its result, and the queue of commands
  unfoldable pub send_command : Option (List ℕ) → List ℕ → queue.Queue → ℤ × queue.Queue
  send_command answer buf q =
      let (ret, q') = enqueue buf q in
      if is_negative ret
      then (eio, q')
      else (elim answer [ none ↦ etimedout | some response ↦ pos 0 ], q')

  -- `cmd_sdi12`
  unfoldable pub cmd_sdi12 : ℕ → List ℕ → Option (List ℕ) → queue.Queue → Option (ℤ × queue.Queue)
  cmd_sdi12 argc arg answer q =
      if argc == 2
      then (elim (fill_command arg) [ none ↦ none | some buf ↦ some (send_command answer buf q) ])
      else some (einval, q)
