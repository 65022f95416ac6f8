-- ===== src/Preview/Lock/Invariant/Keeps.antt =====
-- Every access to the preview record keeps the invariant.
use mobile_webcam_bridge.Prelude.{refl}
use mobile_webcam_bridge.Preview.Lock.Invariant.{Inv}
use mobile_webcam_bridge.Preview.Lock.{
  World, Step, Reach, begins, begin_fails, fills, finishes, gives_up, loses_last, looks, copies,
  checks, here, next,
}
use mobile_webcam_bridge.Preview.Lock.Invariant.Writes.{
  begin-Inv, miss-Inv, fill-Inv, finish-Inv, give_up-Inv, lose_last-Inv,
}
use mobile_webcam_bridge.Preview.Lock.Invariant.Reads.{look-Inv, copy-Inv, check-Inv}

pub Step-Inv : {w w' : World} → Step w w' → Inv w → Inv w'
Step-Inv {w} (begins frame z r s) v = begin-Inv w v frame z r s
Step-Inv {w} (begin_fails frame r s) v = miss-Inv w v frame r s
Step-Inv {w} (fills frame written count e) v = fill-Inv w v frame written count e
Step-Inv {w} (finishes frame written e full) v = finish-Inv w v frame written e full
Step-Inv {w} gives_up v = give_up-Inv w v w.writer refl
Step-Inv {w} (loses_last frame written e) v = lose_last-Inv w v frame written e
Step-Inv {w} looks v = look-Inv w v
Step-Inv {w} (copies p got count e) v = copy-Inv w v p got count e
Step-Inv {w} (checks p got e full) v = check-Inv w v p got e full

pub Reach-Inv : {start w : World} → Inv start → Reach start w → Inv w
Reach-Inv v here = v
Reach-Inv v (next r s) = Step-Inv s (Reach-Inv v r)
