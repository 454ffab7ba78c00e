-- ===== src/Bitstream/Owner/Contents.antt =====
-- What an assignment gives an object, and what the others keep.
use logic.Base.{ℕ, ◌≡◌, ◌≢◌, some, List, []}
use logic.Bitstream.Owner.{Object, Memory, copy_assign, move_assign}
use logic.Bitstream.Owner.Kept.{IsOwned}
use logic.Bitstream.Owner.Shown.{Shows}
use logic.Bitstream.Owner.Assigned.{copy_assign-Shows, move_assign-Shows}

-- When every live object owns its buffer, copy assignment of another object returns, `this` then
-- has the width and the bytes of the other one, and every object but `this`, the copied one
-- included, keeps its own.
pub copy_assign-values :
    {m : Memory} (garbage this other n i k : ℕ) (t : Object) (bits old : List ℕ)
    → IsOwned m
    → m.object this ≡ some t
    → this ≢ other
    → Shows m other n bits
    → i ≢ this
    → Shows m i k old
    → (out : Memory) × (copy_assign garbage this other m ≡ some out)
      × Shows out this n bits
      × Shows out i k old
copy_assign-values garbage this other n i k t bits old w live ne s differ shown =
    let (out, returns, owned, shows, keeps) =
      copy_assign-Shows garbage this other n t bits live w ne s in
    (out, returns, shows, keeps i k old differ shown)

-- When every live object owns its buffer, move assignment of another object returns, `this` then
-- has its width and bytes, the other one is empty, and every further object keeps its own.
pub move_assign-values :
    {m : Memory} (this other n i k : ℕ) (t : Object) (bits old : List ℕ)
    → IsOwned m
    → m.object this ≡ some t
    → this ≢ other
    → Shows m other n bits
    → i ≢ this
    → i ≢ other
    → Shows m i k old
    → (out : Memory) × (move_assign this other m ≡ some out)
      × Shows out this n bits
      × Shows out other 0 []
      × Shows out i k old
move_assign-values this other n i k t bits old w live ne s first second shown =
    let (out, returns, owned, shows, empty, keeps) =
      move_assign-Shows this other n t bits live w ne s in
    (out, returns, shows, empty, keeps i k old first second shown)
