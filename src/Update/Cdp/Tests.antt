-- ===== src/Update/Cdp/Tests.antt =====
-- The consolidation of rrdtool-1.4.5/src/rrd_update.c on the points 2 and 4, two for a row.
use administracion_servicios.Prelude.{List, [], ◌∷◌}
use administracion_servicios.Prelude.Int.{pos}
use administracion_servicios.Double.Sample.{Number, int, nan}
use administracion_servicios.Rrd.{CdpPrep}

abbrev fresh : CdpPrep Number
fresh = record {
  cdp_val = int (pos 0);
  unkn_pdp_cnt = 0;
  hw_intercept = nan;
  hw_last_intercept = nan;
  hw_slope = nan;
  hw_last_slope = nan;
  null_count = 0;
  last_null_count = 0;
  primary_val = nan;
  secondary_val = nan;
  violations = [];
}

abbrev points : List Number
points = int (pos 4) ∷ []
