-- ===== src/Es8p/Icon.antt =====
-- `ProfileMetadata.set_icon` of pySim/esim/es8p.py.
use zk_e_sim_smdp.Common.{Bool, some, length, leb, if◌then◌else◌}
use zk_e_sim_smdp.Common.Outcome.{Outcome, ok, err, value_error}
use zk_e_sim_smdp.Common.Bytes.{Bytes}
use zk_e_sim_smdp.Session.{ProfileMetadata}

unfoldable pub set_icon : Bool → Bytes → ProfileMetadata → Outcome ProfileMetadata
set_icon is_png icon_data m =
    if leb (length icon_data) 1024
    then ok (record m { icon = some icon_data; icon_type = some (if is_png then 1 else 0) })
    else err value_error
