-- ===== src/Mm/Frame/Pools/Fresh.antt =====
-- The state of the allocator before the first call.
use old_boruixkernel.Common.{ℕ, ◌≡◌, false, some, none, [], arith, get_or}
use old_boruixkernel.Mm.Frame.{Pmm, UninitRegion}
use old_boruixkernel.Mm.Frame.Buddy.{is_global}
use old_boruixkernel.Mm.Frame.Uninit.Regions.{InRegion}
use old_boruixkernel.Mm.Frame.Pools.Owners.{IsOwned}

-- Before the first call: the lists are empty, no frame is free, and the regions do not meet.
pub fresh-IsOwned :
    (m : Pmm)
    → ((o s : ℕ) → m.heads o s ≡ none)
    → ((p : ℕ) → is_global (m.frames p).state ≡ false)
    → ((a i j : ℕ) (r s : UninitRegion)
        → get_or m.regions i none ≡ some r
        → get_or m.regions j none ≡ some s
        → InRegion a r
        → InRegion a s
        → i ≡ j)
    → IsOwned m (λ p o. false)
fresh-IsOwned m empty used apart = record {
  stocked = record {
    buddy = record {
      linked = record {
        lists = λ o s. [];
        chain = empty;
        distinct = λ o s. tt;
        members = λ o s p. ground (arith, used p);
      };
      blocks = record {
        one = λ p o o' h k. ground (arith, used p);
        apart = λ p o q o' h k ne. ground (arith, used p);
      };
    };
    one_region = apart;
    outside = λ a i r c e. let (p, o, h, b) = c in ground (arith, used p);
  };
  apart = record { one = λ p o o' h k. ground arith; apart = λ p o q o' h k ne. ground arith };
  clear = λ p o h. ground arith;
}
