-- ===== src/Icmp/Inflight/Tests.antt =====
-- A test of the table of messages in flight, with none in flight.
use mathlib.Core.Quot
use sense_firmware.Prelude.{some}
use sense_firmware.Icmp.Fixtures.{no_inflight-IsValid}
use sense_firmware.Icmp.Inflight.{no_inflight}
use sense_firmware.Icmp.Inflight.Abstract.{Pending, Restored, claim_result, claim-release}

abbrev empty_table : Pending
empty_table = Quot.mk (no_inflight, no_inflight-IsValid)

claim-release_example : Restored (some 7) 42 empty_table (claim_result (some 7) 42 empty_table)
claim-release_example = claim-release (some 7) 42 empty_table
