-- ===== src/Weeder/Duplicates.antt =====
-- `check_duplicates` of src/weeder.cc, and what a run over several messages reports.
use mailfilter.Preferences.{Preferences}
use mailfilter.Base.{List, Option, length, any, ◌==◌, if◌then◌else◌, none, some, [], ◌∷◌, ◌++◌}
use mailfilter.Text.{Text, codes, str_eq}
use mailfilter.Header.{Header}
use mailfilter.Base.Int.{ℤ, pos}
use mailfilter.Feedback.{Message}
use mailfilter.Weeder.Report.{gen_failure, report}

-- class Weeder
pub record Weeder : Type 0 where
  pub msg_ids : List Text

-- Weeder :: check_duplicates, on a pointer that may be null
unfoldable pub check_duplicates :
    {R : Type 0} → Preferences R → Weeder → Option Header → ℤ × List Message × Weeder
check_duplicates p w none = (gen_failure, [], w)
check_duplicates p w (some h) =
    if length h.msg_id == 0
    then (pos 0, [], w)
    else if p.del_duplicates
    then (if any (λ cur_ID. str_eq h.msg_id cur_ID) w.msg_ids
        then (pos 1, report (codes "Deny: ") h (codes " [Duplicate].") 2 ∷ [], w)
        else (pos 0, [], record w { msg_ids = w.msg_ids ++ h.msg_id ∷ [] }))
    else (pos 0, [], w)
