-- ===== src/Gnss/Fix.antt =====
-- The datapoints of one fix.
use sense_firmware.Prelude.{List, [], ◌∷◌, codes}
use sense_firmware.Datapoint.{Datapoint, float_datapoint}
use sense_firmware.Gnss.{Pvt}

-- The five datapoints of a fix.
abbrev pub fix_datapoints : Pvt → List Datapoint
fix_datapoints pvt =
    float_datapoint pvt.latitude (codes "gnss_lat") (codes "deg")
    ∷ float_datapoint pvt.longitude (codes "gnss_long") (codes "deg")
    ∷ float_datapoint pvt.accuracy (codes "gnss_accuracy") (codes "m")
    ∷ float_datapoint pvt.altitude (codes "gnss_alt") (codes "m")
    ∷ float_datapoint pvt.altitude_accuracy (codes "gnss_alt_accuracy") (codes "m")
    ∷ []
