-- ===== src/Board/Main/Tests.antt =====
-- A start of both cores, with devices of which none is ready.
use sense_firmware.Prelude.{◌≡◌, refl, [], false, true, none, some, pos, negsuc}
use sense_firmware.Polling.{unscheduled}
use sense_firmware.Heartbeat.{at_rest}
use sense_firmware.Cellular.{loaded}
use sense_firmware.Sensors.Start.{Sensors}
use sense_firmware.Gnss.Tests.{receiver}
use sense_firmware.Icmp.Inflight.{no_inflight}
use sense_firmware.Icmp.Tests.{sum}
use sense_firmware.Icmp.Fixtures.{slab, queue, storage, idle}
use sense_firmware.Icmp.Exchange.Tests.{control_IsIdle}
use sense_firmware.Icmp.Link.{Link}
use sense_firmware.Board.{ok}
use sense_firmware.Board.Main.{
  Control, Results, Interface, InterfaceResults, usb_starts, control_main, interface_main,
  control_payload, interface_payload,
}
use sense_firmware.Board.Main.Greeting.{serves, Greeted, mains_greet}

abbrev unconnected : Link
unconnected = record { thread = false; inflight_timer = none; receives = false }

abbrev sensors : Sensors
sensors = record {
  gnss = receiver;
  lis3mdl = unscheduled (pos 3000);
  lsm6dso = unscheduled (pos 3000);
  sampling = record { accel = none; gyro = none };
  sht4x = unscheduled (pos 5000);
  adcs = unscheduled (pos 3000);
}

abbrev control : Control slab queue
control = record {
  heartbeat = at_rest 1000;
  state = record { heartbeat_state = ok };
  sensors = sensors;
  cellular = loaded;
  remote = unscheduled (pos 10000);
  server = idle no_inflight;
  link = unconnected;
}

abbrev nothing_ready : Results slab queue
nothing_ready = record {
  heartbeat_ready = false;
  heartbeat_configure = pos 0;
  modem = record {
    lib_init = negsuc 0;
    func_mode = negsuc 0;
    handler_set = pos 0;
    use_case = pos 0;
    retry_set = pos 0;
    interval_set = pos 0;
    start = pos 0;
  };
  devices = record {
    lis3mdl_ready = false;
    lsm6dso_ready = false;
    set_accel = pos 0;
    set_gyro = pos 0;
    sht4x_ready = false;
    adc0_ready = false;
    adc1_ready = false;
  };
  backend = true;
  phy = true;
}

abbrev interface : Interface slab queue
interface = record { server = idle no_inflight; link = unconnected; heartbeat = at_rest 500 }

abbrev all_ready : InterfaceResults slab queue
all_ready = record {
  phy = true;
  heartbeat_ready = true;
  heartbeat_configure = pos 0;
  usb = some (true, pos 0);
}

mains_greet_example :
    let a = control_main slab queue 500 60 120 3 1 nothing_ready control in
    let (starts, b) = interface_main slab queue 500 2 all_ready interface in
    let runs = serves slab queue sum storage 250 (pos 0, pos 0) a.link in
    let runs' = serves slab queue sum storage 250 (pos 0, pos 0) b.link in
    (runs ≡ true)
    × (runs' ≡ true)
    × Greeted slab queue sum storage runs runs' 7 [] 2 control_payload a.server b.server
    × Greeted slab queue sum storage runs' runs 7 [] 1 interface_payload b.server a.server
    × (starts ≡ usb_starts (some (true, pos 0)))
mains_greet_example =
    mains_greet slab queue sum storage 500 60 120 3 250 7 1 2 [] nothing_ready control
      (pos 0, pos 0) all_ready interface (pos 0, pos 0) control_IsIdle control_IsIdle refl refl refl
      refl refl refl
