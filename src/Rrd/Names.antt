-- ===== src/Rrd/Names.antt =====
-- `dst_conv` and `cf_conv` of rrdtool-1.4.5/src/rrd_format.c. The -1 of an unknown name, which the
-- source reports with an error text, is `none`.
use Prim.Native.String.{String}
use text.Mathlib.Text.{◌==◌ as str_eq}
use administracion_servicios.Prelude.{Option, none, some, if◌then◌else◌, refl, ◌≡◌}
use administracion_servicios.Rrd.{
  Cf, average, minimum, maximum, last, hwpredict, seasonal, devpredict, devseasonal, failures,
  mhwpredict, Dst, counter, absolute, gauge, derive, cdef,
}

pub dst_conv : String → Option Dst
dst_conv string =
    if str_eq "COUNTER" string
    then some counter
    else if str_eq "ABSOLUTE" string
    then some absolute
    else if str_eq "GAUGE" string
    then some gauge
    else if str_eq "DERIVE" string
    then some derive
    else if str_eq "COMPUTE" string
    then some cdef
    else none

pub cf_conv : String → Option Cf
cf_conv string =
    if str_eq "AVERAGE" string
    then some average
    else if str_eq "MIN" string
    then some minimum
    else if str_eq "MAX" string
    then some maximum
    else if str_eq "LAST" string
    then some last
    else if str_eq "HWPREDICT" string
    then some hwpredict
    else if str_eq "MHWPREDICT" string
    then some mhwpredict
    else if str_eq "DEVPREDICT" string
    then some devpredict
    else if str_eq "SEASONAL" string
    then some seasonal
    else if str_eq "DEVSEASONAL" string
    then some devseasonal
    else if str_eq "FAILURES" string
    then some failures
    else none

-- the names that rrdtool-1.4.5/doc/rrdcreate.pod lists
pub cf_name : Cf → String
cf_name average = "AVERAGE"
cf_name minimum = "MIN"
cf_name maximum = "MAX"
cf_name last = "LAST"
cf_name hwpredict = "HWPREDICT"
cf_name seasonal = "SEASONAL"
cf_name devpredict = "DEVPREDICT"
cf_name devseasonal = "DEVSEASONAL"
cf_name failures = "FAILURES"
cf_name mhwpredict = "MHWPREDICT"

pub dst_name : Dst → String
dst_name counter = "COUNTER"
dst_name absolute = "ABSOLUTE"
dst_name gauge = "GAUGE"
dst_name derive = "DERIVE"
dst_name cdef = "COMPUTE"

-- Every consolidation function is reached by its documented name.
pub cf_conv-cf_name : (c : Cf) → cf_conv (cf_name c) ≡ some c
unfolding cf_conv cf_name
cf_conv-cf_name average = refl
cf_conv-cf_name _ = refl

pub dst_conv-dst_name : (d : Dst) → dst_conv (dst_name d) ≡ some d
unfolding dst_conv dst_name
dst_conv-dst_name counter = refl
dst_conv-dst_name _ = refl
