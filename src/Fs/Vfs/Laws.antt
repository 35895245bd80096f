-- ===== src/Fs/Vfs/Laws.antt =====
-- The parts of a computation that succeeds.
use old_boruixkernel.Common.{◌≡◌, refl, Option, none, some}
use old_boruixkernel.Fs.Vfs.{VfsResult, ok, err, panicked, World, Vfs, bind_result}

pub bind-eq-ok :
    {F A B : Type 0} (m : Option (VfsResult A × World F)) (k : A → Vfs F B) (b : B) (w' : World F)
    → bind_result m k ≡ some (ok b, w')
    → (a : A) × (w1 : World F) × (m ≡ some (ok a, w1)) × (k a w1 ≡ some (ok b, w'))
bind-eq-ok none k b w' e = cc
bind-eq-ok (some (err x, w)) k b w' e = absurd (cc)
bind-eq-ok (some (panicked, w)) k b w' e = absurd (cc)
bind-eq-ok (some (ok a, w)) k b w' e = (a, w, refl, e)
