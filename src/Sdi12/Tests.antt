-- ===== src/Sdi12/Tests.antt =====
-- Tests of the SDI-12 commands and their thread, with queues that are lists.
use sense_firmware.Prelude.{
  ℕ, ◌≡◌, ◌≢◌, List, [], ◌∷◌, ◌++◌, arith, drop, refl, true, false, inr, none, pos, codes,
}
use sense_firmware.Kernel.{MsgQueue}
use sense_firmware.Kernel.Reference.{list_queue}
use sense_firmware.Sdi12.{sdi12_queue_size, fill_command, cmd_sdi12}
use sense_firmware.Sdi12.Format.{zeros}
use sense_firmware.Sdi12.Thread.{idle, Sdi12, send, Reach, here, next, sends}
use sense_firmware.Sdi12.Exchange.{Rests, exchange, exchange_replies, after_failure, stale_reply}
use sense_firmware.Sdi12.Waits.{Paired, Reach-Paired, enable_failure_hangs}

abbrev queue : MsgQueue (List ℕ) sdi12_queue_size
queue = list_queue (List ℕ) sdi12_queue_size

abbrev measure : List ℕ
measure = codes "0M"

abbrev answer : List ℕ
answer = codes "00013"

-- An empty argument reads the byte before it.
empty_argument : cmd_sdi12 queue 2 [] none [] ≡ none
unfolding cmd_sdi12 fill_command
empty_argument = refl

abbrev resting : Sdi12 queue
resting = record {
  phase = idle;
  lines = record { ls_12v = true; space = false; tx_en = true; rx_en = false };
  tx_sem = false;
  rx_sem = false;
  recv_buffer = zeros;
  send_buffer = zeros;
  transmits = false;
  receives = false;
  responses = [];
}

resting-Rests : Rests queue resting
resting-Rests = record { waits = refl; tx_down = refl; rx_down = refl; no_tx = refl; no_rx = refl }

exchange_replies_example :
    let s' = exchange queue measure answer resting in
    Rests queue s' × (s'.send_buffer ≡ zeros) × (s'.responses ≡ (answer ++ drop 5 zeros) ∷ [])
exchange_replies_example =
    exchange_replies queue measure answer resting resting-Rests (omega arith) (omega arith)

stale_reply_example :
    let s' = after_failure queue measure measure false resting in
    (s'.phase ≡ idle) × (s'.responses ≡ zeros ∷ [])
stale_reply_example = stale_reply queue measure measure false resting refl (omega arith)

deaf :
    Reach queue
      (send queue measure false (pos 0) resting)
      (send queue measure false (pos 0) resting)
deaf = here

enable_failure_hangs_example :
    let t = send queue measure false (pos 0) resting in (t.phase ≢ idle) × (t.responses ≡ [])
enable_failure_hangs_example = enable_failure_hangs queue measure resting _ refl refl deaf

Reach-Paired_example : Paired queue (send queue measure false (pos 0) resting)
Reach-Paired_example =
    Reach-Paired queue resting _ (next here (sends measure false (pos 0) refl))
      (inr ((λ e. cc), refl, refl))
