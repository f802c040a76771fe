-- ===== src/Remote/Tests.antt =====
-- Tests of the remote commands, over the packet library and the uplink of the other tests.
use sense_firmware.Prelude.{◌≡◌, refl, false, [], ◌∷◌, none, some, arith, pos}
use sense_firmware.Coap.Tests.{unlimited}
use sense_firmware.Cellular.Uplink.{Inv}
use sense_firmware.Cellular.Tests.{slab, queue, storage, empty, empty-Inv}
use sense_firmware.Remote.{Command, Settings, apply_command, set_poll_rate, handle_packet}
use sense_firmware.Remote.Requests.{Handled, handle_packet-Handled}

abbrev defaults : Settings
defaults = record {
  adcs = pos 1000;
  lis3mdl = pos 1000;
  lsm6dso = pos 1000;
  sht4x = pos 1000;
  rail = false;
  rescheduled = none;
}

-- "Set the poll rate of the third sensor to 50."
abbrev faster : Command
faster = record { ty = set_poll_rate; ta = 2; i = some (pos 50); b = none }

abbrev faster_settings : Settings
faster_settings = record defaults { lsm6dso = pos 50; rescheduled = some (2, pos 50) }

faster_applied : apply_command faster defaults ≡ some faster_settings
unfolding apply_command
faster_applied = refl

handle_packet-Handled_example :
    let n =
      handle_packet unlimited slab queue
        (pos 0)
        (some (1 ∷ []))
        (λ bytes. some faster)
        (defaults, empty) in
    Inv slab queue n.1
    × Handled unlimited slab queue
        (pos 0)
        (some (1 ∷ []))
        (λ bytes. some faster)
        (defaults, empty)
        n
handle_packet-Handled_example =
    handle_packet-Handled unlimited slab queue storage (λ p. omega arith) (pos 0) (some (1 ∷ []))
      (λ bytes. some faster) defaults empty empty-Inv
